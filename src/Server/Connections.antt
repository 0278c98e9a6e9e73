-- ===== src/Server/Connections.antt =====
-- The connections of a server whose accept has failed.
use Prim.Native.String.{String}
use fan_master_thesis.Base.{
  ℕ, zero, suc, ◌≡◌, refl, ap, sym, subst, ◌∙◌, false, List, [], ◌∷◌, length,
}
use fan_master_thesis.Gpu.Params.{Driver}
use fan_master_thesis.Server.{
  Connection, Server, replace, Step, accepted, refused, served, Reach, here, next,
}

module _ {S : Type 0} where
  length-replace :
      (i : ℕ) (cs : List (Connection S)) (c : Connection S) → length (replace i c cs) ≡ length cs
  unfolding replace
  length-replace i [] c = refl
  length-replace zero (d ∷ cs) c = refl
  length-replace (suc i) (d ∷ cs) c = ap suc (length-replace i cs c)

module _ {S : Type 0} (spell : String → List ℕ) (driver : Driver S) (ptx_path : List ℕ)
    (prop_size : ℕ) where
  -- The step in which an accept fails.
  abbrev pub IsRefusal : {s t : Server S} → Step spell driver ptx_path prop_size s t → Type 0
  IsRefusal (accepted fd context m g listens sized made e) = ⊥
  IsRefusal (refused context m g sized made e) = Unit
  IsRefusal (served i c chunk reply g at done e) = ⊥

  closed-Reach :
      {s t : Server S}
      → s.listening ≡ false
      → Reach spell driver ptx_path prop_size s t
      → (t.listening ≡ false) × (length t.connections ≡ length s.connections)
  closed-Reach closed here = (closed, refl)
  closed-Reach {s} closed (next {t} {u} r (accepted fd context m g listens sized made e)) =
      let ih = closed-Reach closed r in absurd (cc)
  closed-Reach {s} closed (next {t} {u} r (refused context m g sized made e)) =
      let ih = closed-Reach closed r in
      subst (λ x. (x.listening ≡ false) × (length x.connections ≡ length s.connections)) (sym e)
        (refl, ih.1)
  closed-Reach {s} closed (next {t} {u} r (served i c chunk reply g at done e)) =
      let ih = closed-Reach closed r in
      subst (λ x. (x.listening ≡ false) × (length x.connections ≡ length s.connections)) (sym e)
        (ih.0, length-replace i t.connections (record c { gpu = g }) ∙ ih.1)

  -- Once an accept has failed, the server's descriptor is closed and no guest is let in any more,
  -- though the loop goes on: whatever steps follow, it stays closed, and the number of its
  -- connections is what it was before that accept.
  pub closed-for_good :
      {s t u : Server S} (st : Step spell driver ptx_path prop_size s t)
      → IsRefusal st
      → Reach spell driver ptx_path prop_size t u
      → (u.listening ≡ false) × (length u.connections ≡ length s.connections)
  closed-for_good (accepted fd context m g listens sized made e) failed r = absurd failed
  closed-for_good (served i c chunk reply g at done e) failed r = absurd failed
  closed-for_good (refused context m g sized made e) failed r =
      let (stays, same) = closed-Reach (ap (λ x. x.listening) e) r in
      (stays, same ∙ ap (λ x. length x.connections) e)
