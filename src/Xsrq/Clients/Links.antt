-- ===== src/Xsrq/Clients/Links.antt =====
-- Lists of counts and of clients, for the server of rdma-core/xsrq_pingpong.c.
use ibv_bench.Base.{
  ℕ, zero, suc, ◌+◌, ◌-◌, ◌<◌, ◌≡◌, ◌≢◌, refl, ap, some, List, [], ◌∷◌, arith, get_or, set,
  get_elem?, replicate, length,
}
use ibv_bench.Xsrq.Messages.{Send}
use ibv_bench.Xsrq.Clients.{Link, idle_link, deliver}

pub get_or-set_self : (xs : List ℕ) (i v : ℕ) → i < length xs → get_or (set xs i v) i 0 ≡ v
get_or-set_self [] i v h = absurd (omega arith)
get_or-set_self (x ∷ xs) zero v h = refl
get_or-set_self (x ∷ xs) (suc i) v h = get_or-set_self xs i v (omega arith)

pub get_or-set_ne : (xs : List ℕ) (i j v : ℕ) → i ≢ j → get_or (set xs i v) j 0 ≡ get_or xs j 0
get_or-set_ne [] i j v h = refl
get_or-set_ne (x ∷ xs) zero zero v h = absurd (h refl)
get_or-set_ne (x ∷ xs) zero (suc j) v h = refl
get_or-set_ne (x ∷ xs) (suc i) zero v h = refl
get_or-set_ne (x ∷ xs) (suc i) (suc j) v h = get_or-set_ne xs i j v (λ e. h (ap suc e))

pub get_or-replicate : (n i : ℕ) → get_or {A = ℕ} (replicate n 0) i 0 ≡ 0
get_or-replicate zero i = refl
get_or-replicate (suc n) zero = refl
get_or-replicate (suc n) (suc i) = get_or-replicate n i

pub get_elem?-replicate :
    (n i : ℕ) (l : Link) → get_elem? (replicate n idle_link) i ≡ some l → idle_link ≡ l
get_elem?-replicate zero i l h = cc
get_elem?-replicate (suc n) zero l h = ground arith
get_elem?-replicate (suc n) (suc i) l h = get_elem?-replicate n i l h

-- The messages of a client that the server has received.
abbrev pub got : Link → ℕ
got l = l.client.cnt - l.to_server

unfoldable pub total_got : List Link → ℕ
total_got [] = 0
total_got (l ∷ ls) = got l + total_got ls

unfoldable pub total_counted : List Link → ℕ
total_counted [] = 0
total_counted (l ∷ ls) = l.client.cnt + total_counted ls

pub total_got-set :
    (ls : List Link) (i : ℕ) (l k : Link)
    → get_elem? ls i ≡ some l
    → total_got (set ls i k) + got l ≡ total_got ls + got k
unfolding total_got
total_got-set [] i l k h = cc
total_got-set (x ∷ ls) zero l k h = ground arith
total_got-set (x ∷ ls) (suc i) l k h = omega (arith, total_got-set ls i l k h)

pub total_counted-set :
    (ls : List Link) (i : ℕ) (l k : Link)
    → get_elem? ls i ≡ some l
    → total_counted (set ls i k) + l.client.cnt ≡ total_counted ls + k.client.cnt
unfolding total_counted
total_counted-set [] i l k h = cc
total_counted-set (x ∷ ls) zero l k h = ground arith
total_counted-set (x ∷ ls) (suc i) l k h = omega (arith, total_counted-set ls i l k h)

pub in_range : (ls : List Link) (i : ℕ) (l : Link) → get_elem? ls i ≡ some l → i < length ls
in_range [] i l h = cc
in_range (x ∷ ls) zero l h = omega arith
in_range (x ∷ ls) (suc i) l h = omega (arith, in_range ls i l h)

pub set-set : (ls : List Link) (i : ℕ) (k l : Link) → set (set ls i k) i l ≡ set ls i l
set-set [] i k l = refl
set-set (x ∷ ls) zero k l = refl
set-set (x ∷ ls) (suc i) k l = ap (λ t. x ∷ t) (set-set ls i k l)

pub some_link : (ls : List Link) (i : ℕ) → i < length ls → (l : Link) × (get_elem? ls i ≡ some l)
some_link [] i h = absurd (omega arith)
some_link (x ∷ ls) zero h = (x, refl)
some_link (x ∷ ls) (suc i) h = some_link ls i (omega arith)

-- One more message under way to the client.
abbrev pub sent_to : Link → Link
sent_to l = record l { to_client = l.to_client + 1 }

pub deliver-eq :
    (x : Send) (i : ℕ) (ls : List Link) (l : Link)
    → x.index ≡ i
    → get_elem? ls i ≡ some l
    → deliver (some x) ls ≡ set ls i (sent_to l)
unfolding deliver
deliver-eq x i ls l e h = ground (arith, e, h)

pub none_got : (n : ℕ) → total_got (replicate n idle_link) ≡ 0
unfolding total_got
none_got zero = refl
none_got (suc n) = omega (arith, none_got n)

pub none_counted : (n : ℕ) → total_counted (replicate n idle_link) ≡ 0
unfolding total_counted
none_counted zero = refl
none_counted (suc n) = omega (arith, none_counted n)
