-- ===== src/Base/Family.antt =====
-- Families indexed by numbers (arrays of atomics, memory by address), written at one index, and at
-- the first indices of a list of addresses.
use Prim.Native.Nat.{ℕ, zero, suc, ◌<◌}
use mathlib.Core.Path.{◌≡◌, refl, sym, ap, ◌∙◌, fun_ext}
use mathlib.Core.Logic.{◌≢◌}
use native.Mathlib.Omega.{arith}
use native.Mathlib.Decide.{ℕ_discrete}
use kcas.Base.Tests.{◌==◌, if◌then◌else◌}

module _ {ℓ} {A : Type ℓ} where
  abbrev pub update : (ℕ → A) → ℕ → A → ℕ → A
  update f i a j = if i == j then a else f j

  pub update_self : (f : ℕ → A) (i : ℕ) (a : A) → update f i a i ≡ a
  update_self f i a = ground arith

  pub update_ne : (f : ℕ → A) (i j : ℕ) (a : A) → i ≢ j → update f i a j ≡ f j
  update_ne f i j a h = ground arith

  pub update_undo : (f : ℕ → A) (i : ℕ) (a b : A) → f i ≡ b → update (update f i a) i b ≡ f
  update_undo f i a b h = fun_ext λ j. ground arith

-- The addresses at the first `n` places are different from each other.
abbrev pub Distinct : ℕ → (ℕ → ℕ) → Type 0
Distinct n address = (j k : ℕ) → j < n → k < n → address j ≡ address k → j ≡ k

-- `f` with `value j` at `address j` for every `j` below `n`, the last one winning.
unfoldable pub overlay : ℕ → (address value : ℕ → ℕ) → (ℕ → ℕ) → ℕ → ℕ
overlay zero address value f = f
overlay (suc n) address value f = update (overlay n address value f) (address n) (value n)

pub overlay_away :
    (n : ℕ) (address value f : ℕ → ℕ) (a : ℕ)
    → ((j : ℕ) → j < n → address j ≢ a)
    → overlay n address value f a ≡ f a
unfolding overlay
overlay_away zero address value f a h = refl
overlay_away (suc n) address value f a h =
    ground (arith, h n, overlay_away n address value f a (λ j below. h j (omega arith)))

pub overlay_at :
    (n : ℕ) (address value f : ℕ → ℕ) (j : ℕ)
    → Distinct n address
    → j < n
    → overlay n address value f (address j) ≡ value j
unfolding overlay
overlay_at zero address value f j apart h = elim h [ ]
overlay_at (suc n) address value f j apart h = elim (ℕ_discrete j n) [
  | yes last ↦ ground (arith, ap address last, ap value last)
  | no earlier ↦ ground (
    arith,
    apart j n h (omega arith),
    overlay_at n address value f j (λ i k p q. apart i k (omega arith) (omega arith)) (omega arith),
  )
]

-- What is overlaid at an address depends on what was there alone.
overlay_congr :
    (n : ℕ) (address value f f' : ℕ → ℕ) (a : ℕ)
    → f a ≡ f' a
    → overlay n address value f a ≡ overlay n address value f' a
unfolding overlay
overlay_congr zero address value f f' a same = same
overlay_congr (suc n) address value f f' a same =
    ground (arith, overlay_congr n address value f f' a same)

overlay_over_at :
    (n : ℕ) (address value other f : ℕ → ℕ) (a : ℕ)
    → overlay n address value (overlay n address other f) a ≡ overlay n address value f a
unfolding overlay
overlay_over_at zero address value other f a = refl
overlay_over_at (suc n) address value other f a = elim (ℕ_discrete (address n) a) [
  | yes here ↦ ground (arith, here)
  | no away ↦
      let below : update (overlay n address other f) (address n) (other n) a
          ≡ overlay n address other f a =
        update_ne (overlay n address other f) (address n) a (other n) away in
      let inner =
        overlay_congr n address value (update (overlay n address other f) (address n) (other n))
          (overlay n address other f) a below
        ∙ overlay_over_at n address value other f a in
      ground (arith, away, inner)
]

-- The later values win over the earlier ones at the same addresses.
pub overlay_over :
    (n : ℕ) (address value other f : ℕ → ℕ)
    → overlay n address value (overlay n address other f) ≡ overlay n address value f
overlay_over n address value other f = fun_ext λ a. overlay_over_at n address value other f a

-- Of two writes at one address the later one counts.
pub update_twice : (f : ℕ → ℕ) (i u v : ℕ) → update (update f i u) i v ≡ update f i v
update_twice f i u v = fun_ext λ j. ground arith

pub overlay_values :
    (n : ℕ) (address value value' f : ℕ → ℕ)
    → ((j : ℕ) → j < n → value j ≡ value' j)
    → overlay n address value f ≡ overlay n address value' f
unfolding overlay
overlay_values zero address value value' f same = refl
overlay_values (suc n) address value value' f same =
    rw
      (
        overlay_values n address value value' f (λ j below. same j (omega arith)),
        same n (omega arith),
      )
      refl

-- A write at a fresh address can as well come later.
pub overlay-update :
    (n : ℕ) (address value f : ℕ → ℕ) (a v : ℕ)
    → ((j : ℕ) → j < n → address j ≢ a)
    → overlay n address value (update f a v) ≡ update (overlay n address value f) a v
overlay-update n address value f a v fresh = fun_ext λ b. elim (ℕ_discrete a b) [
  | yes here ↦
      ap (overlay n address value (update f a v)) (sym here)
      ∙ overlay_away n address value (update f a v) a fresh
      ∙ update_self f a v
      ∙ sym (update_self (overlay n address value f) a v)
      ∙ ap (update (overlay n address value f) a v) here
  | no other ↦
      overlay_congr n address value (update f a v) f b (update_ne f a b v other)
      ∙ sym (update_ne (overlay n address value f) a b v other)
]
