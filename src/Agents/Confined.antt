-- ===== src/Agents/Confined.antt =====
-- What an agent can change through a `RestrictedContext` of pebs/agents/base.py.
use pebs.Base.{
  ℕ, Bool, ◌≡◌, refl, sym, subst, List, [], ◌∷◌, Text, arith, contains, Bool-cases, Result-cases,
  Option-cases, inl, inr,
}
use pebs.Store.Rows.{Store}
use pebs.Store.Artifacts.{get_revision, accepted_revision}
use pebs.Store.Listings.{accepted_content}
use pebs.Pipeline.{
  Context, Emission, content, content_by_type, artifact_ids_of_type, first_content, emit,
}
use pebs.Agents.{
  AgentContract, Restricted, Action, guard_read, guard_write, restricted_rev, restricted_content,
  restricted_ids, restricted_by_type, restricted_emit, get_attribute, act, act_all,
}
use pebs.Agents.Writes.{Confined, emit-Confined, Confined-refl, Confined-trans}

store-get_revision : (r : Text) (s : Store) → (get_revision r s).1 ≡ s
unfolding get_revision
store-get_revision r s = ground arith

store-accepted_content : (a : Text) (s : Store) → (accepted_content a s).1 ≡ s
unfolding accepted_content accepted_revision get_revision
store-accepted_content a s = ground arith

store-content : (a : Text) (c : Context) → (content a c).1.store ≡ c.store
unfolding content get_revision
store-content a c = ground (arith, store-accepted_content a c.store)

store-first_content : (ids : List Text) (c : Context) → (first_content ids c).1.store ≡ c.store
unfolding first_content
store-first_content [] c = refl
store-first_content (a ∷ ids) c = elim (Result-cases (content a c).0) [
  | inr (x, failed) ↦ ground (arith, store-content a c)
  | inl (found, got) ↦ elim (Option-cases found) [
    | inl missing ↦ ground (arith, store-content a c, store-first_content ids (content a c).1)
    | inr (t, there) ↦ ground (arith, store-content a c)
  ]
]

store-content_by_type : (t : Text) (c : Context) → (content_by_type t c).1.store ≡ c.store
unfolding content_by_type
store-content_by_type t c = store-first_content (artifact_ids_of_type t c) c

changeset-emit :
    (sha256 : Text → Text) (now : ℕ) (rules_version : Text) (e : Emission) (k : Context)
    → (emit sha256 now rules_version e k).1.changeset_id ≡ k.changeset_id
unfolding emit
changeset-emit sha256 now rules_version e k = ground arith

changeset-content : (a : Text) (c : Context) → (content a c).1.changeset_id ≡ c.changeset_id
unfolding content
changeset-content a c = ground arith

changeset-first_content :
    (ids : List Text) (c : Context) → (first_content ids c).1.changeset_id ≡ c.changeset_id
unfolding first_content
changeset-first_content [] c = refl
changeset-first_content (a ∷ ids) c = elim (Result-cases (content a c).0) [
  | inr (x, failed) ↦ ground (arith, changeset-content a c)
  | inl (found, got) ↦ elim (Option-cases found) [
    | inl missing ↦
        ground (arith, changeset-content a c, changeset-first_content ids (content a c).1)
    | inr (t, there) ↦ ground (arith, changeset-content a c)
  ]
]

changeset-content_by_type :
    (t : Text) (c : Context) → (content_by_type t c).1.changeset_id ≡ c.changeset_id
unfolding content_by_type
changeset-content_by_type t c = changeset-first_content (artifact_ids_of_type t c) c

module _ (k : AgentContract) (sha256 : Text → Text) (rules_version : Text) where
  abbrev declares : Text → Bool
  declares t = contains t k.outputs

  abbrev After : Restricted → Restricted → Type 0
  After r t = Confined declares r.inner.changeset_id r.inner.store t.inner.store

  unchanged : (r t : Restricted) → t.inner.store ≡ r.inner.store → After r t
  unchanged r t e =
      subst (Confined declares r.inner.changeset_id r.inner.store) (sym e)
        (Confined-refl declares r.inner.changeset_id r.inner.store)

  act-Confined : (a : Action) (r : Restricted) → After r (act k sha256 rules_version a r)
  unfolding act guard_read guard_write restricted_rev restricted_content restricted_ids
      restricted_by_type restricted_emit get_attribute
  act-Confined (Action.read_rev a) r =
      unchanged r (act k sha256 rules_version (Action.read_rev a) r) (ground arith)
  act-Confined (Action.read_content a) r =
      unchanged r (act k sha256 rules_version (Action.read_content a) r)
        (ground (arith, store-content a r.inner))
  act-Confined (Action.list_ids t) r =
      unchanged r (act k sha256 rules_version (Action.list_ids t) r) (ground arith)
  act-Confined (Action.read_by_type t) r =
      unchanged r (act k sha256 rules_version (Action.read_by_type t) r)
        (ground (arith, store-content_by_type t r.inner))
  act-Confined (Action.write now e) r = elim (Bool-cases (contains e.artifact_type k.outputs)) [
    | inr undeclared ↦
        unchanged r (act k sha256 rules_version (Action.write now e) r) (ground arith)
    | inl declared ↦
        let out = emit sha256 now rules_version e r.inner in
        let lands : (act k sha256 rules_version (Action.write now e) r).inner.store ≡ out.1.store =
          ground arith in
        subst (Confined declares r.inner.changeset_id r.inner.store) (sym lands)
          (emit-Confined declares sha256 now rules_version e r.inner declared)
  ]
  act-Confined (Action.get_attr item callable) r =
      unchanged r (act k sha256 rules_version (Action.get_attr item callable) r) (ground arith)

  changeset-act :
      (a : Action) (r : Restricted)
      → (act k sha256 rules_version a r).inner.changeset_id ≡ r.inner.changeset_id
  unfolding act guard_read guard_write restricted_rev restricted_content restricted_ids
      restricted_by_type restricted_emit get_attribute
  changeset-act (Action.read_rev a) r = ground arith
  changeset-act (Action.read_content a) r = ground (arith, changeset-content a r.inner)
  changeset-act (Action.list_ids t) r = ground arith
  changeset-act (Action.read_by_type t) r = ground (arith, changeset-content_by_type t r.inner)
  changeset-act (Action.write now e) r =
      ground (arith, changeset-emit sha256 now rules_version e r.inner)
  changeset-act (Action.get_attr item callable) r = ground arith

  -- Whatever an agent does through the methods of its context, in any order and whether a call raises
  -- or not (what it does with an attribute that it is handed is not part of this): the revisions that
  -- are added are of types that its contract declares, the rows of `deps` that are added are of these
  -- revisions, and the items that are added are of the changeset of its run. Rows that were there
  -- stay, no artifact points elsewhere than before, and the files, the runs, the steps and the rows
  -- of the changesets themselves are the same.
  pub act_all-Confined :
      (actions : List Action) (r : Restricted)
      → Confined declares r.inner.changeset_id r.inner.store
          (act_all k sha256 rules_version actions r).inner.store
  unfolding act_all
  act_all-Confined [] r = Confined-refl declares r.inner.changeset_id r.inner.store
  act_all-Confined (a ∷ actions) r =
      let s = act k sha256 rules_version a r in
      let later = act_all k sha256 rules_version actions s in
      Confined-trans declares r.inner.changeset_id r.inner.store s.inner.store later.inner.store
        (act-Confined a r)
        (subst (λ c. Confined declares c s.inner.store later.inner.store) (changeset-act a r)
          (act_all-Confined actions s))
