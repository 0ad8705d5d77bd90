-- ===== src/Prp/Walk.antt =====
-- The device's walk over a chain of PRP lists (NVMe specification, section 4.4: where the
-- transfer goes on, the last entry of a list points to the next list), and what one list holds.
use generic_asynchronous_io.Prelude.{
  ℕ, zero, suc, ◌+◌, ◌-◌, ◌/◌, ◌≤◌, ◌<◌, leb, ◌==◌, if◌then◌else◌, List, [], ◌∷◌, ◌++◌, ◌≡◌, ◌≢◌,
  refl, arith, Option, none, some, ap, ap₂, ◌∙◌,
}
use mathlib.Core.Option
use generic_asynchronous_io.Prp.{PrpList, Memory, store, fill}

-- `n` numbers of a sequence, from the `i`-th on.
abbrev pub from : (ℕ → ℕ) → ℕ → ℕ → List ℕ
from f i zero = []
from f i (suc n) = f i ∷ from f (i + 1) n

-- The device reads `n` page addresses, given the lists in the order of the chain.
abbrev pub walk : Memory → List PrpList → ℕ → Option (List ℕ)
walk m [] n = none
walk m (list ∷ []) n = if leb n (list.page_size / 8) then some (from (m list.vaddr) 0 n) else none
walk m (list ∷ next ∷ rest) n =
    if leb n (list.page_size / 8)
    then some (from (m list.vaddr) 0 n)
    else if m list.vaddr (list.page_size / 8 - 1) == next.ioaddr
    then Option.map (λ more. from (m list.vaddr) 0 (list.page_size / 8 - 1) ++ more)
        (walk m (next ∷ rest) (n - (list.page_size / 8 - 1)))
    else none

-- All pages have `size` bytes and room for two entries, and no page is used twice.
abbrev pub Absent : ℕ → List PrpList → Type 0
Absent v [] = Unit {0}
Absent v (list ∷ rest) = (v ≢ list.vaddr) × Absent v rest

abbrev pub IsChain : ℕ → List PrpList → Type 0
IsChain size [] = Unit {0}
IsChain size (list ∷ rest) = (list.page_size ≡ size) × Absent list.vaddr rest × IsChain size rest

pub fill_elsewhere : (m : Memory) (v : ℕ) (f : ℕ → ℕ) (n w j : ℕ) → v ≢ w → fill m v f n w j ≡ m w j
unfolding fill store
fill_elsewhere m v f zero w j ne = refl
fill_elsewhere m v f (suc n) w j ne = ground (arith, fill_elsewhere m v f n w j)

pub fill_inside : (m : Memory) (v : ℕ) (f : ℕ → ℕ) (n j : ℕ) → j < n → fill m v f n v j ≡ f j
unfolding fill store
fill_inside m v f zero j h = absurd (omega arith)
fill_inside m v f (suc n) j h = ground (arith, fill_inside m v f n j)

pub from_ext :
    (f g : ℕ → ℕ) (i n : ℕ) → ((j : ℕ) → i ≤ j → j < i + n → f j ≡ g j) → from f i n ≡ from g i n
from_ext f g i zero h = refl
from_ext f g i (suc n) h =
    ap₂ ◌∷◌ (h i (omega arith) (omega arith))
      (from_ext f g (i + 1) n (λ j p q. h j (omega arith) (omega arith)))

pub from_shift :
    (f g : ℕ → ℕ) (i k n : ℕ)
    → ((j : ℕ) → i ≤ j → j < i + n → f j ≡ g (k + j))
    → from f i n ≡ from g (k + i) n
from_shift f g i k zero h = refl
from_shift f g i k (suc n) h = ap₂ ◌∷◌ (h i (omega arith) (omega arith)) (
    from_shift f g (i + 1) k n (λ j p q. h j (omega arith) (omega arith))
    ∙ ap (λ t. from g t n) (omega arith))

pub from-append : (f : ℕ → ℕ) (i n k : ℕ) → from f i n ++ from f (i + n) k ≡ from f i (n + k)
from-append f i zero k = ap₂ (λ s t. from f s t) (omega arith) (omega arith)
from-append f i (suc n) k =
    ap (λ t. f i ∷ t)
      (ap (λ t. from f (i + 1) n ++ from f t k) (omega arith) ∙ from-append f (i + 1) n k)
    ∙ ap (from f i) {x = suc (n + k)} {y = suc n + k} (omega arith)

-- A list with room for all that is left ends the walk.
pub walk_last :
    (m : Memory) (list : PrpList) (rest : List PrpList) (n : ℕ)
    → n ≤ list.page_size / 8
    → walk m (list ∷ rest) n ≡ some (from (m list.vaddr) 0 n)
walk_last m list [] n h = ground arith
walk_last m list (next ∷ rest) n h = ground arith

-- A full list hands over to the next.
pub walk_on :
    (m : Memory) (list next : PrpList) (rest : List PrpList) (n : ℕ)
    → list.page_size / 8 < n
    → m list.vaddr (list.page_size / 8 - 1) ≡ next.ioaddr
    → walk m (list ∷ next ∷ rest) n
      ≡ Option.map
          (λ more. from (m list.vaddr) 0 (list.page_size / 8 - 1) ++ more)
          (walk m (next ∷ rest) (n - (list.page_size / 8 - 1)))
walk_on m list next rest n h e = rw e (ground arith)

pub walk_on_at :
    (m : Memory) (list next : PrpList) (rest : List PrpList) (n r : ℕ)
    → list.page_size / 8 ≡ r
    → r < n
    → m list.vaddr (r - 1) ≡ next.ioaddr
    → walk m (list ∷ next ∷ rest) n
      ≡ Option.map
          (λ more. from (m list.vaddr) 0 (r - 1) ++ more)
          (walk m (next ∷ rest) (n - (r - 1)))
walk_on_at m list next rest n r e h p =
    walk_on m list next rest n (omega arith) (ap (λ t. m list.vaddr (t - 1)) e ∙ p)
    ∙ ap
        (λ t.
          Option.map (λ more. from (m list.vaddr) 0 (t - 1) ++ more)
            (walk m (next ∷ rest) (n - (t - 1))))
        e
