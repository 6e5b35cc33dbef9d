-- ===== src/Config/Sort/Order.antt =====
-- The order of the remotes after `sort_by_bit_count`.
use lirc_port_for_mac_os_x.Prelude.{
  ℕ, suc, ◌≤◌, List, [], ◌∷◌, ◌++◌, Bool, true, false, leb, ◌==◌, if◌then◌else◌, ◌≡◌, refl, ap, sym,
  ◌∙◌, arith, append_assoc, append-nil,
}
use lirc_port_for_mac_os_x.Remote.{Remote}
use lirc_port_for_mac_os_x.Remote.Flags.{bit_count}
use lirc_port_for_mac_os_x.Config.Sort.{place, sort_loop, sort_by_bit_count}

unfoldable pub AreLonger : ℕ → List Remote → Type 0
AreLonger n [] = Unit
AreLonger n (x ∷ xs) = (n ≤ bit_count x) × AreLonger n xs

-- Each remote has at most as many bits as each that follows.
unfoldable pub IsSorted : List Remote → Type 0
IsSorted [] = Unit
IsSorted (x ∷ xs) = AreLonger (bit_count x) xs × IsSorted xs

-- The remotes of `k` bits, in their order.
unfoldable pub of_count : ℕ → List Remote → List Remote
of_count k [] = []
of_count k (x ∷ xs) = if bit_count x == k then x ∷ of_count k xs else of_count k xs

AreLonger-mono : (m n : ℕ) (xs : List Remote) → m ≤ n → AreLonger n xs → AreLonger m xs
unfolding AreLonger
AreLonger-mono m n [] l h = tt
AreLonger-mono m n (x ∷ xs) l (h, t) = (omega arith, AreLonger-mono m n xs l t)

place-AreLonger :
    (n : ℕ) (rem : Remote) (top : List Remote)
    → n ≤ bit_count rem
    → AreLonger n top
    → AreLonger n (place rem top)
unfolding AreLonger place
place-AreLonger n rem [] l h = (l, tt)
place-AreLonger n rem (x ∷ xs) l (h, t) =
    by_test (leb (bit_count x) (bit_count rem)) (place-AreLonger n rem xs l t)
  where
    by_test :
        (b : Bool)
        → AreLonger n (place rem xs)
        → AreLonger n (if b then x ∷ place rem xs else rem ∷ x ∷ xs)
    by_test true k = (h, k)
    by_test false k = (l, (h, t))

place-IsSorted : (rem : Remote) (top : List Remote) → IsSorted top → IsSorted (place rem top)
unfolding IsSorted AreLonger place
place-IsSorted rem [] h = (tt, tt)
place-IsSorted rem (x ∷ xs) (h, t) =
    by_test (leb (bit_count x) (bit_count rem)) refl (place-IsSorted rem xs t)
  where
    by_test :
        (b : Bool)
        → leb (bit_count x) (bit_count rem) ≡ b
        → IsSorted (place rem xs)
        → IsSorted (if b then x ∷ place rem xs else rem ∷ x ∷ xs)
    by_test true e k = (place-AreLonger (bit_count x) rem xs (ground arith) h, k)
    by_test false e k =
        let l : bit_count rem ≤ bit_count x = ground arith in
        ((l, AreLonger-mono (bit_count rem) (bit_count x) xs l h), (h, t))

of_count-none : (k n : ℕ) (xs : List Remote) → suc k ≤ n → AreLonger n xs → of_count k xs ≡ []
unfolding of_count AreLonger
of_count-none k n [] l h = refl
of_count-none k n (x ∷ xs) l (h, t) = ground (arith, of_count-none k n xs l t)

-- A remote is placed after those of its own count.
of_count-place :
    (k : ℕ) (rem : Remote) (top : List Remote)
    → IsSorted top
    → of_count k (place rem top) ≡ of_count k top ++ of_count k (rem ∷ [])
unfolding of_count IsSorted AreLonger place
of_count-place k rem [] h = refl
of_count-place k rem (x ∷ xs) (h, t) =
    by_test (leb (bit_count x) (bit_count rem)) refl (of_count-place k rem xs t)
  where
    by_count :
        (b : Bool) (r ys zs : List Remote)
        → ys ≡ zs ++ r
        → (if b then x ∷ ys else ys) ≡ (if b then x ∷ zs else zs) ++ r
    by_count true r ys zs e = ap (λ (t : List Remote). x ∷ t) e
    by_count false r ys zs e = e

    moved :
        (b : Bool) (ys : List Remote)
        → (b ≡ true → ys ≡ [])
        → (if b then rem ∷ ys else ys) ≡ ys ++ (if b then rem ∷ [] else [])
    moved true ys e = rw (e refl) refl
    moved false ys e = sym (append-nil ys)

    by_test :
        (b : Bool)
        → leb (bit_count x) (bit_count rem) ≡ b
        → of_count k (place rem xs) ≡ of_count k xs ++ of_count k (rem ∷ [])
        → of_count k (if b then x ∷ place rem xs else rem ∷ x ∷ xs)
          ≡ of_count k (x ∷ xs) ++ of_count k (rem ∷ [])
    by_test true e kept = by_count (bit_count x == k) _ _ _ kept
    by_test false e kept =
        let l : suc (bit_count rem) ≤ bit_count x = ground arith in
        moved (bit_count rem == k) (of_count k (x ∷ xs))
          (λ q. of_count-none k (bit_count x) (x ∷ xs) (ground arith) (omega arith, h))

sort_loop-sorts :
    (remotes top : List Remote)
    → IsSorted top
    → IsSorted (sort_loop remotes top)
      × ((k : ℕ) → of_count k (sort_loop remotes top) ≡ of_count k top ++ of_count k remotes)
unfolding sort_loop of_count
sort_loop-sorts [] top h = (h, λ k. sym (append-nil (of_count k top)))
sort_loop-sorts (rem ∷ next) top h =
    let (sorted, kept) = sort_loop-sorts next (place rem top) (place-IsSorted rem top h) in
    (
      sorted,
      λ k.
          kept k
          ∙ ap (λ (t : List Remote). t ++ of_count k next) (of_count-place k rem top h)
          ∙ append_assoc (of_count k top) (of_count k (rem ∷ [])) (of_count k next)
          ∙ ap (λ (t : List Remote). of_count k top ++ t)
              (alone (bit_count rem == k) (of_count k next)),
    )
  where
    alone :
        (b : Bool) (ys : List Remote)
        → (if b then rem ∷ [] else []) ++ ys ≡ (if b then rem ∷ ys else ys)
    alone true ys = refl
    alone false ys = refl

-- sort_by_bit_count orders the remotes by their number of bits and keeps all of them, those of the
-- same number in the order in which they were read.
pub sort_by_bit_count-sorts :
    (remotes : List Remote)
    → IsSorted (sort_by_bit_count remotes)
      × ((k : ℕ) → of_count k (sort_by_bit_count remotes) ≡ of_count k remotes)
unfolding sort_by_bit_count IsSorted of_count
sort_by_bit_count-sorts remotes = sort_loop-sorts remotes [] tt
