-- ===== src/Http/Logger/Mutex.antt =====
-- What threads that share the logger write to the console.
use rechnernetze.Base.{
  ℕ, ◌≡◌, ◌≢◌, refl, sym, ◌∙◌, ap, List, [], ◌∷◌, ◌++◌, append_assoc, append-nil, ◌==◌, ==_refl,
  Option, none, some, if◌then◌else◌, arith, concat_map, concat_map-append, Bool-cases, Option-cases,
  inl, inr,
}
use rechnernetze.Process.{Bytes}
use rechnernetze.Http.Logger.{
  Logger, Call, perform, Thread, Program, set_thread, Step, locked, written, unlocked, Reach,
  started, later,
}

-- The calls of one thread among those of all.
unfoldable pub calls_of : ℕ → List (ℕ × Call) → List Call
calls_of j [] = []
calls_of j ((i, call) ∷ calls) = let rest = calls_of j calls in if j == i then call ∷ rest else rest

calls_of-append :
    (j : ℕ) (xs ys : List (ℕ × Call)) → calls_of j (xs ++ ys) ≡ calls_of j xs ++ calls_of j ys
unfolding calls_of
calls_of-append j [] ys = refl
calls_of-append j ((i, call) ∷ xs) ys = ground (arith, calls_of-append j xs ys)

abbrev pieces_left : Option ℕ → (ℕ → Thread) → List Bytes
pieces_left none threads = []
pieces_left (some i) threads = (threads i).pieces

abbrev pub lines_of : Logger → List (ℕ × Call) → List Bytes
lines_of l done = concat_map (λ (p : ℕ × Call). perform p.1 l) done

nil_or_cons {ℓ} : {A : Type ℓ} {x : A} {xs : List A} → [] ≡ x ∷ xs → ⊥
nil_or_cons h = cc

none_or_some {ℓ} : {A : Type ℓ} {a : A} → none ≡ some a → ⊥
none_or_some h = cc

some-injective {ℓ} : {A : Type ℓ} {a b : A} → some a ≡ some b → a ≡ b
some-injective h = cc

set_thread-same : (i : ℕ) (t : Thread) (threads : ℕ → Thread) → set_thread i t threads i ≡ t
set_thread-same i t threads = rw (==_refl i) refl

module _ (l : Logger) (start : Program) where
  -- The calls so far, of which the last one can be under way.
  record Inv (s : Program) : Type 0 where
    done : List (ℕ × Call)
    in_order : (j : ℕ) → calls_of j done ++ (s.threads j).calls ≡ (start.threads j).calls
    idle : (j : ℕ) → s.holder ≢ some j → (s.threads j).pieces ≡ []
    whole : s.console ++ pieces_left s.holder s.threads ≡ lines_of l done

  -- Only the holder has something to write.
  writer_holds :
      (s : Program) (i : ℕ) (piece : Bytes) (rest : List Bytes)
      → Inv s
      → (s.threads i).pieces ≡ piece ∷ rest
      → s.holder ≡ some i
  writer_holds s i piece rest inv e = elim (Option-cases s.holder) [
    | inl free ↦ absurd (nil_or_cons (sym (inv.idle i (λ h. none_or_some (sym free ∙ h))) ∙ e))
    | inr (k, held) ↦ elim (Bool-cases (k == i)) [
      | inl same ↦ let ki : k ≡ i = ground arith in held ∙ ap some ki
      | inr other ↦ absurd (
          nil_or_cons (
            sym (inv.idle i (λ h. let ki : k ≡ i = some-injective (sym held ∙ h) in ground arith))
            ∙ e))
    ]
  ]

  locked-Inv :
      (s : Program) (i : ℕ) (call : Call) (rest : List Call)
      → Inv s
      → s.holder ≡ none
      → (s.threads i).calls ≡ call ∷ rest
      → Inv (record s {
        threads = set_thread i (record { calls = rest; pieces = perform call l }) s.threads;
        holder = some i;
      })
  unfolding calls_of concat_map
  locked-Inv s i call rest inv free e = record {
    done = inv.done ++ ((i, call) ∷ []);
    in_order = λ j. elim (Bool-cases (j == i)) [
      | inl same ↦
          let ji : j ≡ i = ground arith in
          rw (calls_of-append j inv.done ((i, call) ∷ []), same)
            (append_assoc (calls_of j inv.done) (call ∷ []) rest
              ∙ ap (λ t. calls_of j inv.done ++ t) (sym e ∙ ap (λ k. (s.threads k).calls) (sym ji))
              ∙ inv.in_order j)
      | inr other ↦
          rw (calls_of-append j inv.done ((i, call) ∷ []), other)
            (ap (λ t. t ++ (s.threads j).calls) (append-nil (calls_of j inv.done)) ∙ inv.in_order j)
    ];
    idle = λ j other. elim (Bool-cases (j == i)) [
      | inl same ↦ let ij : i ≡ j = ground arith in absurd (other (ap some ij))
      | inr apart ↦ rw apart (inv.idle j (λ h. none_or_some (sym free ∙ h)))
    ];
    whole =
        ap (λ (t : Thread). s.console ++ t.pieces)
          (set_thread-same i (record { calls = rest; pieces = perform call l }) s.threads)
        ∙ ap (λ t. t ++ perform call l) (sym (append-nil s.console) ∙ rw free at inv.whole)
        ∙ ap (λ t. lines_of l inv.done ++ t) (sym (append-nil (perform call l)))
        ∙ sym (concat_map-append (λ (p : ℕ × Call). perform p.1 l) inv.done ((i, call) ∷ []));
  }

  written-Inv :
      (s : Program) (i : ℕ) (piece : Bytes) (rest : List Bytes)
      → Inv s
      → (s.threads i).pieces ≡ piece ∷ rest
      → Inv (record s {
        threads = set_thread i (record { calls = (s.threads i).calls; pieces = rest }) s.threads;
        console = s.console ++ (piece ∷ []);
      })
  written-Inv s i piece rest inv e =
      let held = writer_holds s i piece rest inv e in
      record {
        done = inv.done;
        in_order = λ j. elim (Bool-cases (j == i)) [
          | inl same ↦
              let ij : i ≡ j = ground arith in
              rw same (ap (λ k. calls_of j inv.done ++ (s.threads k).calls) ij ∙ inv.in_order j)
          | inr other ↦ rw other (inv.in_order j)
        ];
        idle = λ j other. elim (Bool-cases (j == i)) [
          | inl same ↦ let ij : i ≡ j = ground arith in absurd (other (held ∙ ap some ij))
          | inr apart ↦ rw apart (inv.idle j other)
        ];
        whole = rw held (
            ap (λ (t : Thread). (s.console ++ (piece ∷ [])) ++ t.pieces)
              (set_thread-same i (record { calls = (s.threads i).calls; pieces = rest }) s.threads)
            ∙ append_assoc s.console (piece ∷ []) rest
            ∙ ap (λ t. s.console ++ t) (sym e)
            ∙ rw held at inv.whole);
      }

  unlocked-Inv :
      (s : Program) (i : ℕ)
      → Inv s
      → s.holder ≡ some i
      → (s.threads i).pieces ≡ []
      → Inv (record s { holder = none })
  unlocked-Inv s i inv held e = record {
    done = inv.done;
    in_order = inv.in_order;
    idle = λ j _. elim (Bool-cases (j == i)) [
      | inl same ↦ let ji : j ≡ i = ground arith in ap (λ k. (s.threads k).pieces) ji ∙ e
      | inr other ↦ inv.idle j (λ h. let ij : i ≡ j = some-injective (sym held ∙ h) in ground arith)
    ];
    whole = ap (λ t. s.console ++ t) (sym e) ∙ rw held at inv.whole;
  }

  Step-Inv : {s t : Program} → Inv s → Step l s t → Inv t
  Step-Inv {s} inv (locked i call rest free e) = locked-Inv s i call rest inv free e
  Step-Inv {s} inv (written i piece rest e) = written-Inv s i piece rest inv e
  Step-Inv {s} inv (unlocked i held e) = unlocked-Inv s i inv held e

  abbrev pub IsQuiet : Type 0
  IsQuiet = (start.holder ≡ none) × (start.console ≡ []) × ((j : ℕ) → (start.threads j).pieces ≡ [])

  Reach-Inv : {s : Program} → IsQuiet → Reach l start s → Inv s
  unfolding calls_of concat_map
  Reach-Inv (free, empty, quiet) started = record {
    done = [];
    in_order = λ j. refl;
    idle = λ j _. quiet j;
    whole = rw (free, empty) refl;
  }
  Reach-Inv quiet (later r step) = Step-Inv (Reach-Inv quiet r) step

  -- Let no thread hold the mutex at the beginning, nor be writing, and nothing be on the console. In every
  -- order of the steps of any number of threads, whenever the mutex is free, what is on the console is
  -- what calls of the logger write one after the other, each with all of its line; and of each thread
  -- these are the calls that it has made, in its order.
  pub Reach-console :
      {s : Program}
      → IsQuiet
      → Reach l start s
      → s.holder ≡ none
      → (done : List (ℕ × Call)) × (s.console ≡ lines_of l done)
        × ((j : ℕ) → calls_of j done ++ (s.threads j).calls ≡ (start.threads j).calls)
  Reach-console {s} quiet r free =
      let inv = Reach-Inv quiet r in
      (inv.done, sym (append-nil s.console) ∙ rw free at inv.whole, inv.in_order)
