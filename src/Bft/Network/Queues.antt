-- ===== src/Bft/Network/Queues.antt =====
-- Packets under way, in order: older ones of one kind, and behind them those of another kind.
use rechnernetze.Base.{List, [], ◌∷◌, ◌++◌, All, ◌⊎◌, inl, inr}

module _ {ℓ κ} {A : Type ℓ} (P : A → Type κ) where
  pub All-remove :
      (front : List A) (p : A) (back : List A) → All P (front ++ (p ∷ back)) → All P (front ++ back)
  All-remove [] p back (_, h) = h
  All-remove (q ∷ front) p back (k, h) = (k, All-remove front p back h)

  pub All-replace :
      (front : List A) (p q : A) (back : List A)
      → P q
      → All P (front ++ (p ∷ back))
      → All P (front ++ (q ∷ back))
  All-replace [] p q back new (_, h) = (new, h)
  All-replace (r ∷ front) p q back new (k, h) = (k, All-replace front p q back new h)

  pub All-double :
      (front : List A) (p : A) (back : List A)
      → All P (front ++ (p ∷ back))
      → All P (front ++ (p ∷ p ∷ back))
  All-double [] p back (k, h) = (k, (k, h))
  All-double (q ∷ front) p back (k, h) = (k, All-double front p back h)

  pub All-snoc : (xs : List A) (p : A) → All P xs → P p → All P (xs ++ (p ∷ []))
  All-snoc [] p h new = (new, tt)
  All-snoc (x ∷ xs) p (k, h) new = (k, All-snoc xs p h new)

module _ {ℓ κ} {A : Type ℓ} (Old New : A → Type κ) where
  pub data Fifo : List A → Type (ℓ ⊔ κ) where
    only_new : {ps : List A} → All New ps → Fifo ps
    older : {p : A} {ps : List A} → Old p → Fifo ps → Fifo (p ∷ ps)

  pub Fifo-all : (ps : List A) → All Old ps → Fifo ps
  Fifo-all [] h = only_new tt
  Fifo-all (p ∷ ps) (k, h) = older k (Fifo-all ps h)

  pub Fifo-snoc : (ps : List A) (p : A) → Fifo ps → New p → Fifo (ps ++ (p ∷ []))
  Fifo-snoc ps p (only_new h) new = only_new (All-snoc New ps p h new)
  Fifo-snoc (_ ∷ ps) p (older k h) new = older k (Fifo-snoc ps p h new)

  pub Fifo-cons : {p : A} {ps : List A} → Fifo (p ∷ ps) → All New (p ∷ ps) ⊎ (Old p × Fifo ps)
  Fifo-cons (only_new h) = inl h
  Fifo-cons (older k h) = inr (k, h)

  pub Fifo-remove :
      (front : List A) (p : A) (back : List A) → Fifo (front ++ (p ∷ back)) → Fifo (front ++ back)
  Fifo-remove [] p back h = elim (Fifo-cons h) [ inl new ↦ only_new new.1 | inr old ↦ old.1 ]
  Fifo-remove (q ∷ front) p back h = elim (Fifo-cons h) [
    | inl new ↦ only_new (new.0, All-remove New front p back new.1)
    | inr old ↦ older old.0 (Fifo-remove front p back old.1)
  ]

  pub Fifo-double :
      (front : List A) (p : A) (back : List A)
      → Fifo (front ++ (p ∷ back))
      → Fifo (front ++ (p ∷ p ∷ back))
  Fifo-double [] p back h = elim (Fifo-cons h) [
    | inl new ↦ only_new (new.0, new)
    | inr old ↦ older old.0 (older old.0 old.1)
  ]
  Fifo-double (q ∷ front) p back h = elim (Fifo-cons h) [
    | inl new ↦ only_new (new.0, All-double New front p back new.1)
    | inr old ↦ older old.0 (Fifo-double front p back old.1)
  ]

  -- By something that is of both kinds.
  pub Fifo-replace :
      (front : List A) (p q : A) (back : List A)
      → Old q
      → New q
      → Fifo (front ++ (p ∷ back))
      → Fifo (front ++ (q ∷ back))
  Fifo-replace [] p q back o n h = elim (Fifo-cons h) [
    | inl new ↦ only_new (n, new.1)
    | inr old ↦ older o old.1
  ]
  Fifo-replace (r ∷ front) p q back o n h = elim (Fifo-cons h) [
    | inl new ↦ only_new (new.0, All-replace New front p q back n new.1)
    | inr old ↦ older old.0 (Fifo-replace front p q back o n old.1)
  ]
