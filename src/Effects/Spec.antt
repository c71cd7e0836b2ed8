-- ===== src/Effects/Spec.antt =====
-- What an action guarantees from an invariant: the invariant again, a property of what it returns, and
-- one of what it raises; `⊥` there says that it does not raise. One rule for each way to build an action.
use toolbox_mcp.Prelude.{ℕ, suc, ◌≡◌, refl, Bool, true, false, none, if◌then◌else◌}
use toolbox_mcp.Models.{StateDocument, Exception, Result, ok, err}
use toolbox_mcp.Registry.{written}
use toolbox_mcp.Registry.WellFormed.{IsWellFormed, load_document_of_IsWellFormed}
use toolbox_mcp.Host.{Host}
use toolbox_mcp.Effects.{
  World, Exec, pure, raise, gets, ask, compute, lift, attempt, modify, ◌>>=◌, load, mutate,
  store_after, read_unless, write_unless, continue,
}

abbrev pub Post : {A : Type 0} → (Exception → Type 0) → (A → Type 0) → Result A → Type 0
Post E Q (ok a) = Q a
Post E Q (err e) = E e

-- Nothing is raised.
abbrev pub Never : Exception → Type 0
Never e = ⊥

-- Anything may be raised.
abbrev pub MayRaise : Exception → Type 0
MayRaise e = Unit

-- Nothing is said of the result.
abbrev pub Any : {A : Type 0} → A → Type 0
Any a = Unit

pub record Spec {A : Type 0} (I : World → Type 0) (E : Exception → Type 0) (Q : A → Type 0)
    (m : Exec A) : Type 0 where
  pub at : (host : Host) (w : World) → I w → I (m host w).1 × Post E Q (m host w).0

-- A state file that can be read and written, with a well-formed document.
pub record IsReady (w : World) : Type 0 where
  pub well_formed : IsWellFormed w.document
  pub readable : w.unreadable ≡ none
  pub writable : w.unwritable ≡ none

module _ (host : Host) (w : World) where
  -- From such a file a load gives the document, and a mutation writes what it makes of it.
  pub load_lem : IsReady w → load host w ≡ (ok w.document, w)
  unfolding load read_unless
  load_lem f = rw (f.readable, load_document_of_IsWellFormed w.document f.well_formed)

  pub mutate_lem :
      {A : Type 0} (fn : StateDocument → A × StateDocument)
      → IsReady w
      → mutate fn host w ≡ (ok tt, record w { document = written (fn w.document).1 })
  unfolding mutate store_after read_unless write_unless
  mutate_lem fn f =
      rw (f.readable, load_document_of_IsWellFormed w.document f.well_formed, f.writable)

module _ {I : World → Type 0} {E : Exception → Type 0} where
  pub Spec-pure : {A : Type 0} {Q : A → Type 0} (a : A) → Q a → Spec I E Q (pure a)
  unfolding pure
  Spec-pure a q = record { at = λ host w h. (h, q) }

  pub Spec-raise :
      {A : Type 0} {Q : A → Type 0} (e : Exception) → E e → Spec I E Q (raise {A = A} e)
  unfolding raise
  Spec-raise e q = record { at = λ host w h. (h, q) }

  pub Spec-gets :
      {A : Type 0} {Q : A → Type 0} (f : World → A)
      → ((w : World) → I w → Q (f w))
      → Spec I E Q (gets f)
  unfolding gets
  Spec-gets f q = record { at = λ host w h. (h, q w h) }

  pub Spec-ask :
      {A : Type 0} {Q : A → Type 0} (f : Host → ℕ → A)
      → ((w : World) → I w → I (record w { interactions = suc w.interactions }))
      → ((host : Host) (n : ℕ) → Q (f host n))
      → Spec I E Q (ask f)
  unfolding ask
  Spec-ask f keep q = record { at = λ host w h. (keep w h, q host w.interactions) }

  pub Spec-compute :
      {A : Type 0} {Q : A → Type 0} (f : Host → A)
      → ((host : Host) → Q (f host))
      → Spec I E Q (compute f)
  unfolding compute
  Spec-compute f q = record { at = λ host w h. (h, q host) }

  pub Spec-lift : {A : Type 0} {Q : A → Type 0} (r : Result A) → Post E Q r → Spec I E Q (lift r)
  unfolding lift
  Spec-lift r q = record { at = λ host w h. (h, q) }

  pub Spec-modify : (f : World → World) → ((w : World) → I w → I (f w)) → Spec I E Any (modify f)
  unfolding modify
  Spec-modify f keep = record { at = λ host w h. (keep w h, tt) }

  pub Spec-if :
      {A : Type 0} {Q : A → Type 0} (b : Bool) (m n : Exec A)
      → (b ≡ true → Spec I E Q m)
      → (b ≡ false → Spec I E Q n)
      → Spec I E Q (if b then m else n)
  Spec-if true m n hm hn = hm refl
  Spec-if false m n hm hn = hn refl

  bind_after :
      {A B : Type 0} {Q : A → Type 0} {R : B → Type 0} (f : A → Exec B)
      → ((a : A) → Q a → Spec I E R (f a))
      → (r : Result A) (host : Host) (w : World) → I w
      → Post E Q r
      → I (continue r f host w).1 × Post E R (continue r f host w).0
  bind_after f hf (ok a) host w h q = (hf a q).at host w h
  bind_after f hf (err e) host w h q = (h, q)

  pub Spec-bind :
      {A B : Type 0} {Q : A → Type 0} {R : B → Type 0} (m : Exec A) (f : A → Exec B)
      → Spec I E Q m
      → ((a : A) → Q a → Spec I E R (f a))
      → Spec I E R (m >>= f)
  unfolding ◌>>=◌
  Spec-bind m f hm hf = record {
    at = λ host w h.
        let (r, w') = m host w in let (h', q) = hm.at host w h in bind_after f hf r host w' h' q;
  }

  pub Spec-attempt :
      {A : Type 0} {F : Exception → Type 0} {Q : A → Type 0} (m : Exec A)
      → Spec I F Q m
      → Spec I E (Post F Q) (attempt m)
  unfolding attempt
  Spec-attempt m hm = record { at = λ host w h. hm.at host w h }

  pub Spec-mutate :
      {A : Type 0} (fn : StateDocument → A × StateDocument)
      → ((w : World) → I w → IsReady w)
      → ((w : World) → I w → I (record w { document = written (fn w.document).1 }))
      → Spec I E Any (mutate fn)
  Spec-mutate fn ready keep = record {
    at = λ host w h. rw (mutate_lem host w fn (ready w h)) (keep w h, tt);
  }

  -- From a file that can be used a load gives a well-formed document, and changes nothing.
  pub Spec-load : ((w : World) → I w → IsReady w) → Spec I E IsWellFormed load
  Spec-load ready = record {
    at = λ host w h. rw (load_lem host w (ready w h)) (h, (ready w h).well_formed);
  }
