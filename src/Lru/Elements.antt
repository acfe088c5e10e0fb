-- ===== src/Lru/Elements.antt =====
-- The linked list of container/list as utils/lru.go uses it: elements known by their pointers.
use call_center.Prelude.{
  ℕ, suc, ◌+◌, ◌≤◌, ◌<◌, ◌≡◌, refl, Bool, true, false, Option, none, some, List, [], ◌∷◌, ◌==◌,
  if◌then◌else◌, length, arith,
}
use call_center.Prelude.Int.{ℤ}

pub record Entry {ℓ κ} (K : Type ℓ) (V : Type κ) : Type (ℓ ⊔ κ) where
  pub key : K
  pub value : V
  pub expire_at_secs : ℤ
  pub generation : ℕ

pub record Element {ℓ κ} (K : Type ℓ) (V : Type κ) : Type (ℓ ⊔ κ) where
  pub ptr : ℕ
  pub entry : Entry K V

abbrev pub one_if : Bool → ℕ
one_if true = 1
one_if false = 0

module _ {ℓ κ} {K : Type ℓ} {V : Type κ} where
  abbrev pub has_generation : ℕ → Element K V → Bool
  has_generation g e = e.entry.generation == g

  unfoldable pub deref : ℕ → List (Element K V) → Option (Element K V)
  deref p [] = none
  deref p (e ∷ es) = if e.ptr == p then some e else deref p es

  -- `List.Remove`: the node with this pointer leaves the list.
  unfoldable pub unlink : ℕ → List (Element K V) → List (Element K V)
  unlink p [] = []
  unlink p (e ∷ es) = if e.ptr == p then es else e ∷ unlink p es

  unfoldable pub move_to_front : Element K V → List (Element K V) → List (Element K V)
  unfolding unlink
  move_to_front e es = e ∷ unlink e.ptr es

  -- An assignment through the pointer.
  unfoldable pub store : ℕ → Entry K V → List (Element K V) → List (Element K V)
  store p v [] = []
  store p v (e ∷ es) = if e.ptr == p then record e { entry = v } ∷ es else e ∷ store p v es

  unfoldable pub last? : List (Element K V) → Option (Element K V)
  last? [] = none
  last? (e ∷ []) = some e
  last? (e ∷ f ∷ es) = last? (f ∷ es)

  -- How many elements are of a generation.
  abbrev pub count : ℕ → List (Element K V) → ℕ
  count g [] = 0
  count g (e ∷ es) = one_if (has_generation g e) + count g es

  -- No pointer stands twice, and all are below a bound.
  abbrev pub Distinct : List (Element K V) → Type (ℓ ⊔ κ)
  Distinct [] = Unit
  Distinct (e ∷ es) = (deref e.ptr es ≡ none) × Distinct es

  pub deref_ptr :
      (p : ℕ) (es : List (Element K V)) (e : Element K V) → deref p es ≡ some e → e.ptr ≡ p
  unfolding deref
  deref_ptr p [] e h = cc
  deref_ptr p (x ∷ xs) e h = ground (arith, deref_ptr p xs e)

  pub deref-unlink :
      (p q : ℕ) (es : List (Element K V))
      → Distinct es
      → deref q (unlink p es) ≡ (if p == q then none else deref q es)
  unfolding deref unlink
  deref-unlink p q [] d = ground arith
  deref-unlink p q (x ∷ xs) d = ground (arith, deref-unlink p q xs d.1)

  pub deref-store :
      (p q : ℕ) (v : Entry K V) (es : List (Element K V)) (e : Element K V)
      → deref p es ≡ some e
      → deref q (store p v es) ≡ (if p == q then some (record e { entry = v }) else deref q es)
  unfolding deref store
  deref-store p q v [] e h = cc
  deref-store p q v (x ∷ xs) e h = ground (arith, deref-store p q v xs e)

  pub unlink-Distinct : (p : ℕ) (es : List (Element K V)) → Distinct es → Distinct (unlink p es)
  unfolding unlink
  unlink-Distinct p [] d = tt
  unlink-Distinct p (x ∷ xs) d =
      ground (arith, unlink-Distinct p xs d.1, deref-unlink p x.ptr xs d.1)

  pub deref-store-none :
      (p q : ℕ) (v : Entry K V) (es : List (Element K V))
      → deref q es ≡ none
      → deref q (store p v es) ≡ none
  unfolding deref store
  deref-store-none p q v [] h = refl
  deref-store-none p q v (x ∷ xs) h = ground (arith, deref-store-none p q v xs)

  pub store-Distinct :
      (p : ℕ) (v : Entry K V) (es : List (Element K V)) → Distinct es → Distinct (store p v es)
  unfolding store
  store-Distinct p v [] d = tt
  store-Distinct p v (x ∷ xs) d =
      ground (arith, store-Distinct p v xs d.1, deref-store-none p x.ptr v xs)

  -- No element is younger than a generation.
  abbrev pub Aged : ℕ → List (Element K V) → Type 0
  Aged g [] = Unit
  Aged g (e ∷ es) = (e.entry.generation ≤ g) × Aged g es

  pub unlink-Aged : (g p : ℕ) (es : List (Element K V)) → Aged g es → Aged g (unlink p es)
  unfolding unlink
  unlink-Aged g p [] h = tt
  unlink-Aged g p (x ∷ xs) h = ground (arith, unlink-Aged g p xs h.1)

  pub deref-Aged :
      (g p : ℕ) (es : List (Element K V)) (e : Element K V)
      → deref p es ≡ some e
      → Aged g es
      → e.entry.generation ≤ g
  unfolding deref
  deref-Aged g p [] e h a = cc
  deref-Aged g p (x ∷ xs) e h a = ground (arith, deref-Aged g p xs e)

  pub store-Aged :
      (g p : ℕ) (v : Entry K V) (es : List (Element K V))
      → v.generation ≤ g
      → Aged g es
      → Aged g (store p v es)
  unfolding store
  store-Aged g p v [] h a = tt
  store-Aged g p v (x ∷ xs) h a = ground (arith, store-Aged g p v xs h a.1)

  pub length-store :
      (p : ℕ) (v : Entry K V) (es : List (Element K V)) → length (store p v es) ≡ length es
  unfolding store
  length-store p v [] = refl
  length-store p v (x ∷ xs) = ground (arith, length-store p v xs)

  pub count-store :
      (g p : ℕ) (v : Entry K V) (es : List (Element K V)) (e : Element K V)
      → deref p es ≡ some e
      → v.generation ≡ g
      → count g (store p v es) + one_if (has_generation g e) ≡ count g es + 1
  unfolding deref store
  count-store g p v [] e h i = cc
  count-store g p v (x ∷ xs) e h i = ground (arith, count-store g p v xs e)

  pub Aged-suc : (g : ℕ) (es : List (Element K V)) → Aged g es → Aged (g + 1) es
  Aged-suc g [] h = tt
  Aged-suc g (x ∷ xs) h = (omega arith, Aged-suc g xs h.1)

  pub count-Aged : (g : ℕ) (es : List (Element K V)) → Aged g es → count (g + 1) es ≡ 0
  count-Aged g [] h = refl
  count-Aged g (x ∷ xs) h = ground (arith, count-Aged g xs h.1)

  pub deref-last? :
      (es : List (Element K V)) (e : Element K V)
      → Distinct es
      → last? es ≡ some e
      → deref e.ptr es ≡ some e
  unfolding deref last?
  deref-last? [] e d h = cc
  deref-last? (x ∷ []) e d h = ground arith
  deref-last? (x ∷ y ∷ es) e d h = ground (arith, deref-last? (y ∷ es) e d.1 h)

  pub last?_nonempty :
      (es : List (Element K V)) → 0 < length es → (e : Element K V) × (last? es ≡ some e)
  unfolding last?
  last?_nonempty [] h = absurd (omega arith)
  last?_nonempty (x ∷ []) h = (x, refl)
  last?_nonempty (x ∷ y ∷ es) h = last?_nonempty (y ∷ es) (omega arith)

  pub count-unlink :
      (g p : ℕ) (es : List (Element K V)) (e : Element K V)
      → deref p es ≡ some e
      → count g es ≡ count g (unlink p es) + one_if (has_generation g e)
  unfolding deref unlink
  count-unlink g p [] e h = cc
  count-unlink g p (x ∷ xs) e h = ground (arith, count-unlink g p xs e)

  pub length-unlink :
      (p : ℕ) (es : List (Element K V)) (e : Element K V)
      → deref p es ≡ some e
      → length es ≡ suc (length (unlink p es))
  unfolding deref unlink
  length-unlink p [] e h = cc
  length-unlink p (x ∷ xs) e h = ground (arith, length-unlink p xs e)
