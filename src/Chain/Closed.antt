-- ===== src/Chain/Closed.antt =====
-- internal/orchestrator/service.go: a chain that is closed stays as it is.
use gorchera.Base.{
  ◌≡◌, ◌≢◌, Bool-cases, sym, inl, inr, String, true, false, List, [], ◌∷◌, Option, some, arith, ap,
  ◌∙◌, if◌then◌else◌,
}
use gorchera.Base.Text.{is_iff, ◌is◌}
use gorchera.Base.Dict.{get, put, get-put, String_eq}
use gorchera.Domain.{JobChain, is_closed_chain}
use gorchera.Service.{Env, Service}
use gorchera.Prepare.{Site}
use gorchera.Chain.Ops.{Op, apply, run}
use gorchera.Chain.Writes.{Writes, same, rewrites, both}
use gorchera.Chain.Progress.{apply-Writes}

-- Each file holds the chain of its name.
abbrev pub IsKeyed : Service → Type 0
IsKeyed s = (id : String) (c : JobChain) → get id s.chains ≡ some c → c.id ≡ id

-- The file of the name holds the chain, which is closed, and every file is named for its chain.
pub record IsFinal (id : String) (c : JobChain) (s : Service) : Type 0 where
  pub stored : get id s.chains ≡ some c
  pub closed : is_closed_chain c.status ≡ true
  pub keyed : IsKeyed s

clash_of :
    (old c : JobChain)
    → some old ≡ some c
    → is_closed_chain old.status ≡ false
    → is_closed_chain c.status ≡ true
    → ⊥
clash_of old c e fresh shut = ground (arith, e, fresh, shut)

keyed_after :
    (new d : JobChain) (j : String) (before : Option JobChain)
    → (before ≡ some d → d.id ≡ j)
    → (if new.id is j then some new else before) ≡ some d
    → d.id ≡ j
keyed_after new d j before keyed h = elim (Bool-cases (new.id is j)) [
  | inl here ↦ ground (arith, h, here, is_iff new.id j)
  | inr there ↦ keyed (ground (arith, h, there))
]

put-IsFinal :
    (id name : String) (c old new : JobChain) (s t : Service)
    → IsFinal id c s
    → get name s.chains ≡ some old
    → is_closed_chain old.status ≡ false
    → new.id ≡ old.id
    → t.chains ≡ put new.id new s.chains
    → IsFinal id c t
put-IsFinal id name c old new s t v found fresh e w =
    let clash : name ≢ id =
      λ h. clash_of old c (sym found ∙ ap (λ n. get n s.chains) h ∙ v.stored) fresh v.closed in
    let differs : new.id ≢ id = λ h. clash (sym (v.keyed name old found) ∙ sym e ∙ h) in
    let looked = λ (j : String). ap (get j) w ∙ get-put new.id j new s.chains in
    record {
      stored = looked id ∙ ground (arith, is_iff new.id id, differs, v.stored);
      closed = v.closed;
      keyed = λ j d h. keyed_after new d j (get j s.chains) (v.keyed j d) (sym (looked j) ∙ h);
    }

Writes-IsFinal :
    (id : String) (c : JobChain) (s t : Service) → IsFinal id c s → Writes s t → IsFinal id c t
Writes-IsFinal id c s t v (same e) = record {
  stored = ap (get id) e ∙ v.stored;
  closed = v.closed;
  keyed = λ j d h. v.keyed j d (ap (get j) (sym e) ∙ h);
}
Writes-IsFinal id c s t v (rewrites name old new found fresh e w) =
    put-IsFinal id name c old new s t v found fresh e w
Writes-IsFinal id c s t v (both u p q) = Writes-IsFinal id c u t (Writes-IsFinal id c s u v p) q

-- A chain whose file says that it is done, failed or cancelled stays as it is, whichever chains are
-- paused, cancelled, resumed or skipped on after that and whichever jobs fail, are blocked or
-- interrupted, or are done, in any order and whatever the store and the system answer, where every file
-- is named for its chain.
pub run-IsFinal :
    (env : Env) (site : Site) (id : String) (c : JobChain) (s : Service) (ops : List Op)
    → IsFinal id c s
    → IsFinal id c (run env site s ops)
unfolding run
run-IsFinal env site id c s [] v = v
run-IsFinal env site id c s (op ∷ ops) v =
    run-IsFinal env site id c (apply env site s op) ops
      (Writes-IsFinal id c s (apply env site s op) v (apply-Writes env site s op))
