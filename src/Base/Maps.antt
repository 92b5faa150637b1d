-- ===== src/Base/Maps.antt =====
-- Functions on numbers as maps, such as the memory at each address or the state of each thread.
use Prim.Native.Nat.{ℕ}
use mathlib.Core.Path.{◌≡◌, refl}
use mathlib.Core.Logic.{◌≢◌}
use mathlib.Core.Bool.{true, false}
use native.Mathlib.Omega.{arith}
use casca_log.Base.Tests.{◌==◌, if◌then◌else◌, ==_self}

unfoldable pub update {ℓ} : {A : Type ℓ} → (ℕ → A) → ℕ → A → ℕ → A
update f i a j = if j == i then a else f j

pub update_same {ℓ} :
    {A : Type ℓ} (f : ℕ → A) (i : ℕ) (a : A) (j : ℕ) → (j == i) ≡ true → update f i a j ≡ a
unfolding update
update_same f i a j e = rw e refl

pub update_other {ℓ} :
    {A : Type ℓ} (f : ℕ → A) (i : ℕ) (a : A) (j : ℕ) → (j == i) ≡ false → update f i a j ≡ f j
unfolding update
update_other f i a j e = rw e refl

pub update_at {ℓ} : {A : Type ℓ} (f : ℕ → A) (i : ℕ) (a : A) → update f i a i ≡ a
update_at f i a = update_same f i a i (==_self i)

not_same : (i j : ℕ) → j ≢ i → (j == i) ≡ false
not_same i j n = ground (arith, n)

pub update_apart {ℓ} :
    {A : Type ℓ} (f : ℕ → A) (i : ℕ) (a : A) (j : ℕ) → j ≢ i → update f i a j ≡ f j
update_apart f i a j n = update_other f i a j (not_same i j n)
