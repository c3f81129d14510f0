-- ===== src/Base/Zones.antt =====
-- Lists that hold elements of one kind and then elements of another, and what a channel that keeps
-- the order does to a list.
use networking_projects.Base.Lists.{All, All-append}
use Prim.Native.Nat.{ℕ, zero, suc}
use mathlib.Core.Logic.{◌⊎◌, inl, inr}
use mathlib.Core.List.{List, [], ◌∷◌, ◌++◌}

-- Without the element at a place.
unfoldable pub lose {ℓ} : {A : Type ℓ} → ℕ → List A → List A
lose i [] = []
lose zero (x ∷ xs) = xs
lose (suc i) (x ∷ xs) = x ∷ lose i xs

-- With the element at a place twice.
unfoldable pub repeat_at {ℓ} : {A : Type ℓ} → ℕ → List A → List A
repeat_at i [] = []
repeat_at zero (x ∷ xs) = x ∷ x ∷ xs
repeat_at (suc i) (x ∷ xs) = x ∷ repeat_at i xs

module _ {ℓ κ} {A : Type ℓ} (P : A → Type κ) where
  pub All-lose : (i : ℕ) (xs : List A) → All P xs → All P (lose i xs)
  unfolding lose
  All-lose i [] h = tt
  All-lose zero (x ∷ xs) h = h.1
  All-lose (suc i) (x ∷ xs) h = (h.0, All-lose i xs h.1)

  pub All-repeat_at : (i : ℕ) (xs : List A) → All P xs → All P (repeat_at i xs)
  unfolding repeat_at
  All-repeat_at i [] h = tt
  All-repeat_at zero (x ∷ xs) h = (h.0, (h.0, h.1))
  All-repeat_at (suc i) (x ∷ xs) h = (h.0, All-repeat_at i xs h.1)

  pub All-map {μ} : (Q : A → Type μ) → ((x : A) → P x → Q x) → (xs : List A) → All P xs → All Q xs
  All-map Q f [] h = tt
  All-map Q f (x ∷ xs) h = (f x h.0, All-map Q f xs h.1)

module _ {ℓ κ} {A : Type ℓ} (P Q : A → Type κ) where
  -- First elements that satisfy `P`, then elements that satisfy `Q`.
  abbrev pub Zones : List A → Type κ
  Zones [] = Unit
  Zones (x ∷ xs) = (P x × Zones xs) ⊎ (Q x × All Q xs)

  pub Zones-first : (xs : List A) → All P xs → Zones xs
  Zones-first [] h = tt
  Zones-first (x ∷ xs) h = inl (h.0, Zones-first xs h.1)

  pub Zones-second : (xs : List A) → All Q xs → Zones xs
  Zones-second [] h = tt
  Zones-second (x ∷ xs) h = inr h

  pub Zones-append : (xs ys : List A) → Zones xs → All Q ys → Zones (xs ++ ys)
  Zones-append [] ys z q = Zones-second ys q
  Zones-append (x ∷ xs) ys (inl (p, z)) q = inl (p, Zones-append xs ys z q)
  Zones-append (x ∷ xs) ys (inr (p, z)) q = inr (p, All-append Q xs ys z q)

  pub Zones-lose : (i : ℕ) (xs : List A) → Zones xs → Zones (lose i xs)
  unfolding lose
  Zones-lose i [] z = tt
  Zones-lose zero (x ∷ xs) (inl (p, z)) = z
  Zones-lose zero (x ∷ xs) (inr (p, z)) = Zones-second xs z
  Zones-lose (suc i) (x ∷ xs) (inl (p, z)) = inl (p, Zones-lose i xs z)
  Zones-lose (suc i) (x ∷ xs) (inr (p, z)) = inr (p, All-lose Q i xs z)

  pub Zones-repeat_at : (i : ℕ) (xs : List A) → Zones xs → Zones (repeat_at i xs)
  unfolding repeat_at
  Zones-repeat_at i [] z = tt
  Zones-repeat_at zero (x ∷ xs) (inl (p, z)) = inl (p, inl (p, z))
  Zones-repeat_at zero (x ∷ xs) (inr (p, z)) = inr (p, (p, z))
  Zones-repeat_at (suc i) (x ∷ xs) (inl (p, z)) = inl (p, Zones-repeat_at i xs z)
  Zones-repeat_at (suc i) (x ∷ xs) (inr (p, z)) = inr (p, All-repeat_at Q i xs z)
