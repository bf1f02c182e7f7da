-- ===== src/Relay/Listed.antt =====
-- The list of all clients, or of all remotes, holds each one that is there, once, and nothing else.
use usbfluxd.Prelude.{
  ℕ, ◌<◌, Option-cases, ◌-◌, ◌==◌, ◌≡◌, refl, ◌∙◌, true, Option, none, some, arith, Bool-cases, inl,
  inr, if◌then◌else◌,
}
use usbfluxd.Utils.Collection
use usbfluxd.Utils.Collection.{Collection, Ptr}
use usbfluxd.Utils.Collection.Capacity.{IsValid, init-IsValid, add-IsValid, remove-IsValid}
use usbfluxd.Utils.Collection.Bag.{occurs, occurs-add, occurs-remove}
use usbfluxd.World.Monad.{update}

unfoldable pub present : {A : Type 0} → Option A → ℕ
present none = 0
present (some a) = 1

module _ {A : Type 0} where
  pub record Tracks (c : Collection) (f : Ptr → Option A) : Type 0 where
    pub valid : IsValid c
    pub exact : (p : Ptr) → occurs p (Collection.elements c) ≡ present (f p)

  pub Tracks-store :
      (c : Collection) (f : Ptr → Option A) (p : Ptr) (a b : A)
      → Tracks c f
      → f p ≡ some a
      → Tracks c (update f p (some b))
  unfolding present
  Tracks-store c f p a b t e = record {
    valid = t.valid;
    exact = λ x. elim (Bool-cases (p == x)) [
      | inl same ↦ ground (arith, same, t.exact x, e)
      | inr other ↦ ground (arith, other, t.exact x)
    ];
  }

  pub Tracks-remove :
      (c : Collection) (f : Ptr → Option A) (p : Ptr)
      → Tracks c f
      → Tracks (Collection.remove c p) (update f p none)
  unfolding present
  Tracks-remove c f p t = record {
    valid = remove-IsValid p t.valid;
    exact = λ x. occurs-remove p x t.valid ∙ (elim (Bool-cases (p == x)) [
      | inl same ↦ one_less x same
      | inr other ↦ ground (arith, other, t.exact x)
    ]);
  }
    where
      at_most_one : (o : Option A) → present o - 1 ≡ 0
      at_most_one none = refl
      at_most_one (some a) = refl

      one_less :
          (x : Ptr)
          → (p == x) ≡ true
          → (if p == x
              then occurs x (Collection.elements c) - 1
              else occurs x (Collection.elements c))
            ≡ present (update f p none x)
      one_less x same = rw (same, t.exact x) (at_most_one (f x))

  pub Tracks-add :
      (c : Collection) (f : Ptr → Option A) (p : Ptr) (a : A)
      → Tracks c f
      → f p ≡ none
      → Tracks (Collection.add c p) (update f p (some a))
  unfolding present
  Tracks-add c f p a t e = record {
    valid = add-IsValid p t.valid;
    exact = λ x. occurs-add p x t.valid ∙ (elim (Bool-cases (p == x)) [
      | inl same ↦ ground (arith, same, t.exact x, e)
      | inr other ↦ ground (arith, other, t.exact x)
    ]);
  }

  pub Tracks-unused :
      (c : Collection) (f : Ptr → Option A) (p : Ptr)
      → Tracks c f
      → f p ≡ none
      → Tracks c (update f p none)
  unfolding present
  Tracks-unused c f p t e = record {
    valid = t.valid;
    exact = λ x. elim (Bool-cases (p == x)) [
      | inl same ↦ ground (arith, same, t.exact x, e)
      | inr other ↦ ground (arith, other, t.exact x)
    ];
  }

  -- What is listed is there.
  pub Tracks-live :
      (c : Collection) (f : Ptr → Option A) (p : Ptr)
      → Tracks c f
      → 0 < occurs p (Collection.elements c)
      → (a : A) × (f p ≡ some a)
  unfolding present
  Tracks-live c f p t h = elim (Option-cases (f p)) [
    | inl gone ↦ absurd (ground (arith, t.exact p, gone, h))
    | inr (a, e) ↦ (a, e)
  ]

  -- The list as it is set up, and no objects.
  pub Tracks-init : Tracks Collection.init (λ p. none)
  unfolding Collection.init Collection.elements Collection.visit occurs present
  Tracks-init = record { valid = init-IsValid; exact = λ p. refl }
