-- ===== src/Pm/Archive.antt =====
-- modules/pmi/pmi_wrapper_mpi.c: `Archive_t`, a growing array of keys and values.
use ibv_bench.Base.{
  ℕ, ◌+◌, ◌-◌, ◌*◌, ◌≤◌, ◌<◌, ◌≡◌, ◌⊎◌, refl, Bool, true, false, ◌&&◌, Option, none, some, List, [],
  ◌∷◌, ◌++◌, arith, ltb, ◌==◌, if◌then◌else◌, length, length-append, Bool-cases, inl, inr,
}
use ibv_bench.Base.Text.{Text, text_eq, text_eq_iff}

-- STRING_LIMIT
abbrev pub string_limit : ℕ
string_limit = 256

pub record Entry : Type 0 where
  pub key : Text
  pub value : Text

-- `ptr` up to `size`, and the capacity; `strings` is the number of blocks from `malloc(STRING_LIMIT)`
-- that have not been freed.
pub record Archive : Type 0 where
  pub entries : List Entry
  pub capacity : ℕ
  pub strings : ℕ

abbrev pub size : Archive → ℕ
size a = length a.entries

-- A run that goes on, `exit(1)`, or a write or read out of bounds.
pub data Run {ℓ} (S : Type ℓ) : Type ℓ where
  fault exited : Run S
  ok : (state : S) → Run S

-- The code behind a call, which is reached only if the run goes on.
infixl 5 ◌>>=◌
abbrev pub ◌>>=◌ {ℓ κ} : {S : Type ℓ} {T : Type κ} (first : Run S) (second : S → Run T) → Run T
fault >>= second = fault
exited >>= second = exited
ok state >>= second = second state

-- `archive_init`; the argument says whether `malloc` succeeds.
unfoldable pub archive_init : Bool → Run Archive
archive_init malloc_ok =
    if malloc_ok then ok (record { entries = []; capacity = 8; strings = 0 }) else exited

-- The blocks of the entries are freed, two for each.
unfoldable pub archive_fina : Archive → Archive
archive_fina a = record { entries = []; capacity = 0; strings = a.strings - 2 * size a }

unfoldable pub archive_clear : Archive → Archive
archive_clear a = record a { entries = [] }

-- The answers of one `archive_push`: of `realloc`, if it is called, and of the two calls of `malloc`.
pub record Memory : Type 0 where
  pub realloc_ok : Bool
  pub key_ok : Bool
  pub value_ok : Bool

abbrev pub enough : Memory
enough = record { realloc_ok = true; key_ok = true; value_ok = true }

-- Whether `strcpy` of the text and its NUL stays in a block.
pub fits : Text → Bool
fits t = ltb (length t) string_limit

-- `if (archive->size == archive->capacity)`, with what `realloc` answers.
grow : Bool → Archive → Run Archive
grow realloc_ok a =
    if size a == a.capacity
    then if realloc_ok then ok (record a { capacity = a.capacity * 2 }) else exited
    else ok a

-- The answers of `malloc` are not looked at: `strcpy` then writes to NULL.
append_entry : Memory → Text → Text → Archive → Run Archive
unfolding fits
append_entry m key value a =
    if m.key_ok && fits key && (m.value_ok && fits value)
    then if ltb (size a) a.capacity
      then ok (record a {
        entries = a.entries ++ (record { key = key; value = value } ∷ []);
        strings = a.strings + 2;
      })
      else fault
    else fault

unfoldable pub archive_push : Memory → Text → Text → Archive → Run Archive
unfolding grow append_entry
archive_push m key value a = grow m.realloc_ok a >>= append_entry m key value

-- `archive_search` on the entries; none for NULL.
unfoldable pub search_entries : List Entry → Text → Option Text
search_entries [] key = none
search_entries (e ∷ es) key =
    let rest = search_entries es key in if text_eq e.key key then some e.value else rest

unfoldable pub archive_search : Archive → Text → Option Text
unfolding search_entries
archive_search a key = search_entries a.entries key

-- The entries lie in the array, and each has its two blocks.
pub record IsArchive (a : Archive) : Type 0 where
  pub room : size a ≤ a.capacity
  pub some_capacity : 0 < a.capacity
  pub blocks : 2 * size a ≤ a.strings

pushed : Text → Text → Archive → Archive
pushed key value a = record {
  entries = a.entries ++ (record { key = key; value = value } ∷ []);
  capacity = if size a == a.capacity then a.capacity * 2 else a.capacity;
  strings = a.strings + 2;
}

pushed-IsArchive : (key value : Text) (a : Archive) → IsArchive a → IsArchive (pushed key value a)
unfolding pushed
pushed-IsArchive key value a h =
    ground (arith, length-append a.entries (record { key = key; value = value } ∷ []))

archive_push-pushed :
    (m : Memory) (key value : Text) (a : Archive)
    → IsArchive a
    → length key < string_limit
    → length value < string_limit
    → (size a ≡ a.capacity → m.realloc_ok ≡ true)
    → m.key_ok ≡ true
    → m.value_ok ≡ true
    → archive_push m key value a ≡ ok (pushed key value a)
unfolding archive_push pushed
archive_push-pushed m key value a h hk hv can kept copied = ground arith

-- On an archive, `archive_push` of a key and a value of less than 256 bytes adds the entry at the
-- end, whether the array has to grow or not, and keeps the representation; nothing is written out
-- of bounds. If the array has to grow, `realloc` must succeed, and both calls of `malloc` must.
pub archive_push-adds :
    (m : Memory) (key value : Text) (a : Archive)
    → IsArchive a
    → length key < string_limit
    → length value < string_limit
    → (size a ≡ a.capacity → m.realloc_ok ≡ true)
    → m.key_ok ≡ true
    → m.value_ok ≡ true
    → (b : Archive) × (archive_push m key value a ≡ ok b)
      × (b.entries ≡ a.entries ++ (record { key = key; value = value } ∷ []))
      × IsArchive b
unfolding pushed
archive_push-adds m key value a h hk hv can kept copied = (
  pushed key value a,
  archive_push-pushed m key value a h hk hv can kept copied,
  refl,
  pushed-IsArchive key value a h,
)

-- Where the array has room, a key or a value that does not fit in 256 bytes with its NUL is
-- written past its block, and one for which `malloc` gives no block is written to NULL.
pub archive_push-overflow :
    (m : Memory) (key value : Text) (a : Archive)
    → IsArchive a
    → size a < a.capacity
    → ((string_limit ≤ length key)
        ⊎ (string_limit ≤ length value)
        ⊎ (m.key_ok ≡ false)
        ⊎ (m.value_ok ≡ false))
    → archive_push m key value a ≡ fault
unfolding archive_push
archive_push-overflow m key value a h room long = ground arith

-- On an archive, `archive_fina` frees two blocks for each entry; after `archive_clear`, which
-- forgets the entries without freeing them, it frees none, and their blocks are lost.
pub archive_fina-clear :
    (a : Archive)
    → IsArchive a
    → ((archive_fina a).strings ≡ a.strings - 2 * size a)
      × ((archive_fina (archive_clear a)).strings ≡ a.strings)
unfolding archive_fina archive_clear
archive_fina-clear a h = ground arith

-- The search finds the first entry with the key.
pub search_entries-first :
    (before after : List Entry) (e : Entry)
    → search_entries before e.key ≡ none
    → search_entries (before ++ (e ∷ after)) e.key ≡ some e.value
unfolding search_entries
search_entries-first [] after e fresh = rw ((text_eq_iff e.key e.key).1 refl)
search_entries-first (f ∷ before) after e fresh = elim (Bool-cases (text_eq f.key e.key)) [
  | inl same ↦ absurd (ground (arith, same))
  | inr other ↦ rw other (search_entries-first before after e (ground (arith, other)))
]
