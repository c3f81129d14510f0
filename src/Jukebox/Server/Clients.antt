-- ===== src/Jukebox/Server/Clients.antt =====
-- The map from descriptors to clients of music-server.cpp.
use networking_projects.Base.{
  ==_of_eq, ℕ, ◌≡◌, ◌≢◌, refl, sym, ap, subst, ◌∙◌, true, false, Bool-cases, none, some,
  some-injective, List, [], ◌∷◌, ◌==◌, All, inl, inr, arith,
}
use networking_projects.Jukebox.State.{State}
use networking_projects.Jukebox.Server.{lookup, insert, erase}

same_key : (j k : ℕ) → (j == k) ≡ true → j ≡ k
same_key j k e = ground arith

other_key : (j k : ℕ) → j ≢ k → (j == k) ≡ false
other_key j k h = ground arith

-- The first entry of the map.
module _ (j k : ℕ) (t : State) (clients : List (ℕ × State)) where
  insert-hit : (s : State) → (j == k) ≡ true → insert k s ((j, t) ∷ clients) ≡ (k, s) ∷ clients
  unfolding insert
  insert-hit s e = rw (e, insert) refl

  insert-miss :
      (s : State) → (j == k) ≡ false → insert k s ((j, t) ∷ clients) ≡ (j, t) ∷ insert k s clients
  unfolding insert
  insert-miss s e = rw (e, insert) refl

  erase-hit : (j == k) ≡ true → erase k ((j, t) ∷ clients) ≡ erase k clients
  unfolding erase
  erase-hit e = rw (e, erase) refl

  erase-miss : (j == k) ≡ false → erase k ((j, t) ∷ clients) ≡ (j, t) ∷ erase k clients
  unfolding erase
  erase-miss e = rw (e, erase) refl

  lookup-hit : (j == k) ≡ true → lookup k ((j, t) ∷ clients) ≡ some t
  unfolding lookup
  lookup-hit e = rw (e, lookup) refl

  lookup-miss : (j == k) ≡ false → lookup k ((j, t) ∷ clients) ≡ lookup k clients
  unfolding lookup
  lookup-miss e = rw (e, lookup) refl

module _ (P : ℕ × State → Type 0) where
  pub All-insert :
      (k : ℕ) (s : State) (clients : List (ℕ × State))
      → P (k, s)
      → All P clients
      → All P (insert k s clients)
  unfolding insert
  All-insert k s [] p a = (p, tt)
  All-insert k s ((j, t) ∷ clients) p a = elim (Bool-cases (j == k)) [
    | inl e ↦ subst (All P) (sym (insert-hit j k t clients s e)) (p, a.1)
    | inr e ↦
        subst (All P) (sym (insert-miss j k t clients s e)) (a.0, All-insert k s clients p a.1)
  ]

  pub All-erase : (k : ℕ) (clients : List (ℕ × State)) → All P clients → All P (erase k clients)
  unfolding erase
  All-erase k [] a = tt
  All-erase k ((j, t) ∷ clients) a = elim (Bool-cases (j == k)) [
    | inl e ↦ subst (All P) (sym (erase-hit j k t clients e)) (All-erase k clients a.1)
    | inr e ↦ subst (All P) (sym (erase-miss j k t clients e)) (a.0, All-erase k clients a.1)
  ]

  pub All-lookup :
      (k : ℕ) (clients : List (ℕ × State)) (s : State)
      → lookup k clients ≡ some s
      → All P clients
      → P (k, s)
  unfolding lookup
  All-lookup k [] s e a = absurd (cc)
  All-lookup k ((j, t) ∷ clients) s e a = elim (Bool-cases (j == k)) [
    | inl h ↦
        let found : t ≡ s = some-injective (sym (lookup-hit j k t clients h) ∙ e) in
        subst (λ x. P (x, s)) (same_key j k h) (subst (λ x. P (j, x)) found a.0)
    | inr h ↦ All-lookup k clients s (sym (lookup-miss j k t clients h) ∙ e) a.1
  ]

-- Maps that agree on a key agree on it behind another entry.
past :
    (j other : ℕ) (t : State) (a b : List (ℕ × State))
    → lookup other a ≡ lookup other b
    → lookup other ((j, t) ∷ a) ≡ lookup other ((j, t) ∷ b)
past j other t a b same = elim (Bool-cases (j == other)) [
  | inl e ↦ lookup-hit j other t a e ∙ sym (lookup-hit j other t b e)
  | inr e ↦ lookup-miss j other t a e ∙ same ∙ sym (lookup-miss j other t b e)
]

pub lookup-insert :
    (k other : ℕ) (s : State) (clients : List (ℕ × State))
    → other ≢ k
    → lookup other (insert k s clients) ≡ lookup other clients
unfolding insert
lookup-insert k other s [] h = lookup-miss k other s [] (other_key k other (λ e. h (sym e)))
lookup-insert k other s ((j, t) ∷ clients) h = elim (Bool-cases (j == k)) [
  | inl e ↦
      let is_k : j ≡ k = same_key j k e in
      ap (lookup other) (insert-hit j k t clients s e)
      ∙ lookup-miss k other s clients (other_key k other (λ x. h (sym x)))
      ∙ sym (lookup-miss j other t clients (other_key j other (λ x. h (sym x ∙ is_k))))
  | inr e ↦
      ap (lookup other) (insert-miss j k t clients s e)
      ∙ past j other t _ _ (lookup-insert k other s clients h)
]

pub lookup-erase :
    (k other : ℕ) (clients : List (ℕ × State))
    → other ≢ k
    → lookup other (erase k clients) ≡ lookup other clients
unfolding erase
lookup-erase k other [] h = refl
lookup-erase k other ((j, t) ∷ clients) h = elim (Bool-cases (j == k)) [
  | inl e ↦
      let is_k : j ≡ k = same_key j k e in
      ap (lookup other) (erase-hit j k t clients e)
      ∙ lookup-erase k other clients h
      ∙ sym (lookup-miss j other t clients (other_key j other (λ x. h (sym x ∙ is_k))))
  | inr e ↦
      ap (lookup other) (erase-miss j k t clients e)
      ∙ past j other t _ _ (lookup-erase k other clients h)
]

pub lookup-erased : (k : ℕ) (clients : List (ℕ × State)) → lookup k (erase k clients) ≡ none
unfolding lookup erase
lookup-erased k [] = refl
lookup-erased k ((j, t) ∷ clients) = elim (Bool-cases (j == k)) [
  | inl e ↦ ap (lookup k) (erase-hit j k t clients e) ∙ lookup-erased k clients
  | inr e ↦
      ap (lookup k) (erase-miss j k t clients e)
      ∙ lookup-miss j k t (erase k clients) e
      ∙ lookup-erased k clients
]

pub lookup-inserted :
    (k : ℕ) (s : State) (clients : List (ℕ × State)) → lookup k (insert k s clients) ≡ some s
unfolding insert
lookup-inserted k s [] = lookup-hit k k s [] (==_of_eq k k refl)
lookup-inserted k s ((j, t) ∷ clients) = elim (Bool-cases (j == k)) [
  | inl e ↦
      ap (lookup k) (insert-hit j k t clients s e) ∙ lookup-hit k k s clients (==_of_eq k k refl)
  | inr e ↦
      ap (lookup k) (insert-miss j k t clients s e)
      ∙ lookup-miss j k t (insert k s clients) e
      ∙ lookup-inserted k s clients
]
