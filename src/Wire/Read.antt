-- ===== src/Wire/Read.antt =====
-- The loop over `read` of rdma-core/xsrq_pingpong.c (`recv_remote_dest`) and of
-- rdma-core/srq_pingpong.c, which reads a message of a known size in whatever parts it comes.
use ibv_bench.Base.{
  ℕ, ◌+◌, ◌≡◌, refl, List, [], ◌∷◌, ◌++◌, append-nil, append_assoc, arith, ltb, length, map,
  if◌then◌else◌, Bool-cases, inl, inr, length-append,
}
use ibv_bench.Base.Text.{Text}

-- What one `read` gives: some bytes, none where the other side has closed, or an error.
pub data Chunk : Type 0 where
  bytes : Text → Chunk
  read_failed : Chunk

-- Where the loop over `read` stands after some answers.
pub data ReadMsg : Type 0 where
  got : Text → ReadMsg
  failed_read : ReadMsg
  still_reading : Text → ReadMsg

-- `while (n < size)`, with the bytes of `msg` that are filled. `read` gives no more than it is
-- asked for.
pub read_msg : ℕ → Text → List Chunk → ReadMsg
read_msg size msg [] = if ltb (length msg) size then still_reading msg else got msg
read_msg size msg (c ∷ cs) =
    let on : ReadMsg = elim c [
      | bytes b ↦ read_msg size (msg ++ b) cs
      | read_failed ↦ failed_read
    ] in
    if ltb (length msg) size then on else got msg

-- The bytes of all parts, in order.
unfoldable pub joined : List Text → Text
joined [] = []
joined (p ∷ ps) = p ++ joined ps

nothing_left : (s : Text) → length s ≡ 0 → s ≡ []
nothing_left [] h = refl
nothing_left (c ∷ s) h = absurd (omega arith)

pub read_msg-joined :
    (size : ℕ) (msg : Text) (parts : List Text)
    → length msg + length (joined parts) ≡ size
    → read_msg size msg (map bytes parts) ≡ got (msg ++ joined parts)
unfolding read_msg joined
read_msg-joined size msg [] h = ground (arith, append-nil msg)
read_msg-joined size msg (p ∷ ps) h = elim (Bool-cases (ltb (length msg) size)) [
  | inl on ↦ ground (
    arith,
    on,
    read_msg-joined size (msg ++ p) ps
        (omega (arith, length-append msg p, length-append p (joined ps))),
    append_assoc msg p (joined ps),
  )
  | inr off ↦
      let none_left = nothing_left (p ++ joined ps) (ground (arith, off, h)) in
      ground (arith, off, none_left, append-nil msg)
]
