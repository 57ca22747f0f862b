-- ===== src/Controller/Accounts.antt =====
-- The account `activeRequestsTotals`: for each piece, how many peers have it among their active
-- requests. Adding and taking off requests keeps it exact.
use tulva.Prelude.{
  ℕ, zero, suc, ◌+◌, ◌-◌, ◌≤◌, ◌<◌, ◌≡◌, refl, ap, ◌∙◌, List, [], ◌∷◌, false, some, leb, length,
  get_elem?, set, length-set, get_elem?-set_self, get_elem?-set_ne, String, done, Returns, modify,
  All, sum_map, one_if, arith, contains, Bool-cases, inl, inr, count, IsSimple, ◌==◌, ==-refl,
  nat_eq, replicate, length-replicate,
}
use tulva.Prelude.Int.{ℤ, pos, ◌+ℤ◌, ◌-ℤ◌, inc_pos, dec_pos}
use tulva.Controller.State.{PeerInfo, set_add, set_remove}
use tulva.Controller.Requests.{release_all}

-- How many peers work on the piece.
abbrev pub holders : List (String × PeerInfo) → ℕ → ℕ
holders peers p = sum_map (λ entry. count p entry.1.active_requests) peers

-- The totals of the `n` pieces are the numbers that `h` gives.
pub record Accounts (n : ℕ) (totals : List ℤ) (h : ℕ → ℕ) : Type 0 where
  pub sized : length totals ≡ n
  pub exact : (p : ℕ) → p < n → get_elem? totals p ≡ some (pos (h p))

module _ (n : ℕ) (totals : List ℤ) where
  pub Accounts-cong :
      (h k : ℕ → ℕ) → ((p : ℕ) → h p ≡ k p) → Accounts n totals h → Accounts n totals k
  Accounts-cong h k e a = record {
    sized = a.sized;
    exact = λ p l. a.exact p l ∙ ap (λ m. some (pos m)) (e p);
  }

  set-Accounts :
      (h k : ℕ → ℕ) (q : ℕ)
      → q < n
      → ((p : ℕ) → (p == q) ≡ false → h p ≡ k p)
      → Accounts n totals h
      → Accounts n (set totals q (pos (k q))) k
  set-Accounts h k q lq e a = record {
    sized = length-set totals q (pos (k q)) ∙ a.sized;
    exact = λ p l. elim (Bool-cases (p == q)) [
      | inl same ↦
          let pq : p ≡ q = ground arith in
          rw pq (get_elem?-set_self totals q (pos (k q)) (omega (arith, a.sized)))
      | inr other ↦
          get_elem?-set_ne totals q p (pos (k q)) (ground arith)
          ∙ a.exact p l
          ∙ ap (λ m. some (pos m)) (e p other)
    ];
  }

  -- One more peer works on piece `q`.
  pub inc-Accounts :
      (h : ℕ → ℕ) (q : ℕ)
      → q < n
      → Accounts n totals h
      → Returns (λ t. Accounts n t (λ p. h p + one_if (p == q))) (modify totals q (λ t. t +ℤ pos 1))
  inc-Accounts h q lq a = (
    set totals q (pos (h q + one_if (q == q))),
    rw (a.exact q lq, modify)
        (rw (==-refl q, inc_pos (h q)) (ap (λ m. done (set totals q (pos m))) (omega arith))),
    set-Accounts h (λ p. h p + one_if (p == q)) q lq (λ p e. rw e (omega arith)) a,
  )

  -- One peer less works on piece `q`.
  pub dec-Accounts :
      (h : ℕ → ℕ) (q : ℕ)
      → q < n
      → 1 ≤ h q
      → Accounts n totals h
      → Returns (λ t. Accounts n t (λ p. h p - one_if (p == q))) (modify totals q (λ t. t -ℤ pos 1))
  dec-Accounts h q lq one a = (
    set totals q (pos (h q - one_if (q == q))),
    rw (a.exact q lq, modify)
        (rw (==-refl q) (ap (λ (m : ℤ). done (set totals q m)) (down (h q) one))),
    set-Accounts h (λ p. h p - one_if (p == q)) q lq (λ p e. rw e (omega arith)) a,
  )
    where
      down : (m : ℕ) → 1 ≤ m → pos m -ℤ pos 1 ≡ pos (m - 1)
      down zero l = absurd (omega arith)
      down (suc m) l = dec_pos m ∙ ap pos (omega arith)

pub release_all-Accounts :
    (n : ℕ) (pieces : List ℕ) (totals : List ℤ) (h : ℕ → ℕ)
    → All (λ p. leb n p ≡ false) pieces
    → ((p : ℕ) → count p pieces ≤ h p)
    → Accounts n totals h
    → Returns (λ t. Accounts n t (λ p. h p - count p pieces)) (release_all pieces totals)
unfolding release_all
release_all-Accounts n [] totals h b c a =
    (totals, refl, Accounts-cong n totals h _ (λ p. omega arith) a)
release_all-Accounts n (q ∷ pieces) totals h b c a =
    let (t, e, a') =
      dec-Accounts n totals h q (ground (arith, b.0)) (ground (arith, c q, ==-refl q)) a in
    let (u, e', a'') =
      release_all-Accounts n pieces t (λ p. h p - one_if (p == q)) b.1 (λ p. omega (arith, c p))
        a' in
    (u, rw e e', Accounts-cong n u _ _ (λ p. omega arith) a'')

get_elem?-replicate : (n p : ℕ) (t : ℤ) → p < n → get_elem? (replicate n t) p ≡ some t
get_elem?-replicate zero p t h = elim h [ ]
get_elem?-replicate (suc n) zero t h = refl
get_elem?-replicate (suc n) (suc p) t h = get_elem?-replicate n p t (omega arith)

pub replicate-Accounts : (n : ℕ) → Accounts n (replicate n (pos 0)) (λ p. 0)
replicate-Accounts n = record {
  sized = length-replicate n (pos 0);
  exact = λ p h. get_elem?-replicate n p (pos 0) h;
}

-- The set of active requests.
pub count-set_add :
    (p q : ℕ) (s : List ℕ)
    → contains s q ≡ false
    → count p (set_add q s) ≡ one_if (p == q) + count p s
count-set_add p q s h = rw h

pub count-set_remove_self : (q : ℕ) (s : List ℕ) → count q (set_remove q s) ≡ 0
count-set_remove_self q [] = refl
count-set_remove_self q (x ∷ s) = ground (arith, count-set_remove_self q s)

pub count-set_remove_ne :
    (p q : ℕ) (s : List ℕ) → (p == q) ≡ false → count p (set_remove q s) ≡ count p s
count-set_remove_ne p q [] h = refl
count-set_remove_ne p q (x ∷ s) h = ground (arith, count-set_remove_ne p q s h)

-- Of a set, one item less.
pub count-set_remove :
    (p q : ℕ) (s : List ℕ)
    → IsSimple s
    → 1 ≤ count q s
    → count p (set_remove q s) ≡ count p s - one_if (p == q)
count-set_remove p q s simple one = elim (Bool-cases (p == q)) [
  | inl same ↦
      let e : p ≡ q = ground arith in
      rw (e, ==-refl q) (omega (arith, simple q, count-set_remove_self q s))
  | inr other ↦ rw other (omega (arith, count-set_remove_ne p q s other))
]

pub length-set_remove : (q : ℕ) (s : List ℕ) → length (set_remove q s) ≤ length s
length-set_remove q [] = omega arith
length-set_remove q (x ∷ s) = ground (arith, length-set_remove q s)

pub All-set_remove {ℓ} : (P : ℕ → Type ℓ) (q : ℕ) (s : List ℕ) → All P s → All P (set_remove q s)
All-set_remove P q [] h = tt
All-set_remove P q (x ∷ s) h = elim (Bool-cases (x == q)) [
  | inl same ↦ rw same (All-set_remove P q s h.1)
  | inr other ↦ rw other (h.0, All-set_remove P q s h.1)
]
