-- ===== src/Utils/Iptables/Commands/Chain.antt =====
-- The rules that src/utils/iptables.c looks for, and the place of a rule in a list.
use edgesec.Common.{
  ℕ, zero, suc, ◌+◌, ◌<◌, ◌≡◌, refl, ap, ◌∙◌, subst, inl, inr, if◌then◌else◌, Bool, true, false,
  ◌&&◌, Option, none, some, List, [], ◌∷◌, CString, codes, ℤ, length, take, get_elem?, All, str_eq,
  Bool-cases, Option-cases, arith,
}
use edgesec.Utils.Iptables.{IptablesColumns}
use edgesec.Utils.Iptables.Listing.{numbered}
use edgesec.Utils.Iptables.Commands.{find_rule, find_baseif_rulenum}

-- The rule that add_bridge_rule makes.
unfoldable pub accepts : CString → CString → CString → CString → IptablesColumns → Bool
accepts sip sif dip dif el =
    str_eq el.in_if sif
    && (str_eq el.out_if dif
        && (str_eq el.source sip
            && (str_eq el.destination dip && str_eq el.target (codes "ACCEPT"))))

-- The rule that add_baseif_rules makes.
unfoldable pub rejects : CString → IptablesColumns → Bool
rejects ifname el =
    str_eq el.in_if ifname && (str_eq el.out_if (codes "*") && str_eq el.target (codes "REJECT"))

module _ {ℓ} {A : Type ℓ} where
  abbrev pub remove_at : ℕ → List A → List A
  remove_at n [] = []
  remove_at zero (a ∷ xs) = xs
  remove_at (suc n) (a ∷ xs) = a ∷ remove_at n xs

  unfoldable pub position : (A → Bool) → List A → Option ℕ
  position p [] = none
  position p (a ∷ xs) =
      if p a then some 0 else elim (position p xs) [ none ↦ none | some n ↦ some (suc n) ]

  abbrev pub remove_first : (A → Bool) → List A → List A
  remove_first p [] = []
  remove_first p (a ∷ xs) = if p a then xs else a ∷ remove_first p xs

  pub remove_at-position :
      (p : A → Bool) (xs : List A) {n : ℕ}
      → position p xs ≡ some n
      → (remove_at n xs ≡ remove_first p xs) × (n < length xs)
  unfolding position
  remove_at-position p [] e = absurd (cc e)
  remove_at-position p (a ∷ xs) {n} e = elim (Bool-cases (p a)) [
    | inl hit ↦
        let at_head : 0 ≡ n = cc (rw hit at e) in
        subst (λ k. (remove_at k (a ∷ xs) ≡ remove_first p (a ∷ xs)) × (k < length (a ∷ xs)))
          at_head (rw hit refl, omega arith)
    | inr miss ↦ elim (Option-cases (position p xs)) [
      | inl absent ↦ absurd (cc (rw (miss, absent) at e))
      | inr (k, there) ↦
          let further : suc k ≡ n = cc (rw (miss, there) at e) in
          let (removed, below) = remove_at-position p xs there in
          subst (λ k. (remove_at k (a ∷ xs) ≡ remove_first p (a ∷ xs)) × (k < length (a ∷ xs)))
            further (rw (miss, removed) refl, omega (arith, below))
    ]
  ]

  pub remove_first-absent :
      (p : A → Bool) (xs : List A) → position p xs ≡ none → remove_first p xs ≡ xs
  unfolding position
  remove_first-absent p [] e = refl
  remove_first-absent p (a ∷ xs) e = elim (Bool-cases (p a)) [
    | inl hit ↦ absurd (cc (rw hit at e))
    | inr miss ↦ elim (Option-cases (position p xs)) [
      | inl absent ↦ rw (miss, remove_first-absent p xs absent) refl
      | inr (k, there) ↦ absurd (cc (rw (miss, there) at e))
    ]
  ]

module _ {ℓ} {A : Type ℓ} where
  -- Nothing before the place passes the test.
  pub position-before :
      (p : A → Bool) (xs : List A) {n : ℕ}
      → position p xs ≡ some n
      → All (λ x. p x ≡ false) (take n xs)
  unfolding position
  position-before p [] e = absurd (cc e)
  position-before p (a ∷ xs) {n} e = elim (Bool-cases (p a)) [
    | inl hit ↦
        let at_head : 0 ≡ n = cc (rw hit at e) in
        subst (λ k. All (λ x. p x ≡ false) (take k (a ∷ xs))) at_head tt
    | inr miss ↦ elim (Option-cases (position p xs)) [
      | inl absent ↦ absurd (cc (rw (miss, absent) at e))
      | inr (k, there) ↦
          let further : suc k ≡ n = cc (rw (miss, there) at e) in
          subst (λ m. All (λ x. p x ≡ false) (take m (a ∷ xs))) further
            (miss, position-before p xs there)
    ]
  ]

  pub position-hit :
      (p : A → Bool) (xs : List A) {n : ℕ}
      → position p xs ≡ some n
      → (x : A) × (get_elem? xs n ≡ some x) × (p x ≡ true)
  unfolding position
  position-hit p [] e = absurd (cc e)
  position-hit p (a ∷ xs) {n} e = elim (Bool-cases (p a)) [
    | inl hit ↦
        let at_head : 0 ≡ n = cc (rw hit at e) in
        (a, subst (λ k. get_elem? (a ∷ xs) k ≡ some a) at_head refl, hit)
    | inr miss ↦ elim (Option-cases (position p xs)) [
      | inl absent ↦ absurd (cc (rw (miss, absent) at e))
      | inr (k, there) ↦
          let further : suc k ≡ n = cc (rw (miss, there) at e) in
          let (x, at_k, passes) = position-hit p xs there in
          (x, subst (λ m. get_elem? (a ∷ xs) m ≡ some x) further at_k, passes)
    ]
  ]

  pub position-none :
      (p : A → Bool) (xs : List A) → position p xs ≡ none → All (λ x. p x ≡ false) xs
  unfolding position
  position-none p [] e = tt
  position-none p (a ∷ xs) e = elim (Bool-cases (p a)) [
    | inl hit ↦ absurd (cc (rw hit at e))
    | inr miss ↦ elim (Option-cases (position p xs)) [
      | inl absent ↦ (miss, position-none p xs absent)
      | inr (k, there) ↦ absurd (cc (rw (miss, there) at e))
    ]
  ]

pub length-numbered :
    (n : ℕ) (rules : List IptablesColumns) → length (numbered n rules) ≡ length rules
length-numbered n [] = refl
length-numbered n (rule ∷ rules) = ap suc (length-numbered (suc n) rules)

-- The number of the first rule that passes, counted from `n`, and 0 where there is none.
unfoldable pub place_number : ℕ → Option ℕ → ℤ
place_number n none = ℤ.pos 0
place_number n (some k) = ℤ.pos (n + k)

place_number-suc :
    (n : ℕ) (o : Option ℕ)
    → place_number (suc n) o ≡ place_number n (elim o [ none ↦ none | some k ↦ some (suc k) ])
unfolding place_number
place_number-suc n none = refl
place_number-suc n (some k) = ap ℤ.pos (omega arith)

pub find_rule-numbered :
    (n : ℕ) (rules : List IptablesColumns) (sip sif dip dif : CString)
    → find_rule (numbered n rules) sip sif dip dif (codes "ACCEPT")
      ≡ place_number n (position (accepts sip sif dip dif) rules)
unfolding find_rule position place_number accepts
find_rule-numbered n [] sip sif dip dif = refl
find_rule-numbered n (rule ∷ rules) sip sif dip dif =
    elim (Bool-cases (accepts sip sif dip dif rule)) [
      | inl hit ↦ rw hit (ap ℤ.pos (omega arith))
      | inr miss ↦ rw miss (
          find_rule-numbered (suc n) rules sip sif dip dif
          ∙ place_number-suc n (position (accepts sip sif dip dif) rules))
    ]

pub find_baseif_rulenum-numbered :
    (n : ℕ) (rules : List IptablesColumns) (ifname : CString)
    → find_baseif_rulenum (numbered n rules) ifname
      ≡ place_number n (position (rejects ifname) rules)
unfolding find_baseif_rulenum position place_number rejects
find_baseif_rulenum-numbered n [] ifname = refl
find_baseif_rulenum-numbered n (rule ∷ rules) ifname = elim (Bool-cases (rejects ifname rule)) [
  | inl hit ↦ rw hit (ap ℤ.pos (omega arith))
  | inr miss ↦ rw miss (
      find_baseif_rulenum-numbered (suc n) rules ifname
      ∙ place_number-suc n (position (rejects ifname) rules))
]
