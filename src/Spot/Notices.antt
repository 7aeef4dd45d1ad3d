-- ===== src/Spot/Notices.antt =====
-- What the handling of one notice does for the node of each name.
use gpuautoscaler.Prelude.{
  ◌≡◌, refl, sym, ap, ◌∙◌, Bool, true, false, Bool-cases, Option, none, some, Option-cases, inl,
  inr, String, str_eq, eq_iff, List, [], ◌∷◌, lookup, insert, lookup-insert, if◌then◌else◌, arith,
}
use gpuautoscaler.Prelude.Results.{Result, ok, err, Error}
use gpuautoscaler.Prelude.Time.{Time}
use gpuautoscaler.Kube.{Node}
use gpuautoscaler.Budget.Spend.{is_present}
use gpuautoscaler.Spot.Model.{
  UpdateAnswers, SpotOrchestrator, handle_spot_termination, noticed, after_handling, warned,
  with_annotations,
}

abbrev pub or_else : Option Time → Option Time → Option Time
or_else none u = u
or_else (some t) u = some t

-- The time of a notice, if there is one.
abbrev pub time_of : Result (Option Time) → Option Time
time_of (err e) = none
time_of (ok notice) = notice

-- Both updates of a node succeed.
abbrev pub both_succeed : UpdateAnswers → Bool
both_succeed a =
    if is_present a.to_annotations then false else if is_present a.to_cordon then false else true

-- A goroutine evicts the pods of a node of this name.
unfoldable pub is_evicting : String → List Node → Bool
is_evicting q [] = false
is_evicting q (w ∷ ws) = let rest = is_evicting q ws in if str_eq q w.name then true else rest

-- What a name has newly got: a warning where there was none.
abbrev pub is_new : Option Time → Option Time → Bool
is_new before after = if is_present before then false else is_present after

-- Whether pods are evicted, from whether they were: a goroutine starts for a new warning if both updates
-- succeed.
abbrev pub evicts : Bool → Option Time → Option Time → Bool → Bool
evicts was before after succeed =
    if was then true else if is_new before after then succeed else false

or_else-none : (t : Option Time) → t ≡ or_else t none
or_else-none none = refl
or_else-none (some t) = refl

or_else_assoc : (t u v : Option Time) → or_else (or_else t u) v ≡ or_else t (or_else u v)
or_else_assoc none u v = refl
or_else_assoc (some t) u v = refl

evicts_same : (was : Bool) (t : Option Time) (succeed : Bool) → was ≡ evicts was t t succeed
evicts_same true t b = refl
evicts_same false none b = refl
evicts_same false (some t) b = refl

evicts_twice :
    (was succeed : Bool) (t u v : Option Time)
    → evicts (evicts was t (or_else t u) succeed) (or_else t u) (or_else (or_else t u) v) succeed
      ≡ evicts was t (or_else t (or_else u v)) succeed
evicts_twice true b t u v = refl
evicts_twice false b (some t) u v = refl
evicts_twice false b none none v = refl
evicts_twice false true none (some u) v = refl
evicts_twice false false none (some u) v = refl

module _ (q : String) where
  -- The warning and the worker of a name behind a notice with this time, or behind none.
  pub record IsNoted (time : Option Time) (succeed : Bool) (s s' : SpotOrchestrator) : Type 0 where
    pub warning : lookup s'.termination_warnings q ≡ or_else (lookup s.termination_warnings q) time
    pub worker :
        is_evicting q s'.workers
        ≡ evicts
            (is_evicting q s.workers)
            (lookup s.termination_warnings q)
            (or_else (lookup s.termination_warnings q) time)
            succeed

  pub unchanged : (succeed : Bool) (s : SpotOrchestrator) → IsNoted none succeed s s
  unchanged succeed s =
      let same = or_else-none (lookup s.termination_warnings q) in
      record {
        warning = same;
        worker =
            evicts_same (is_evicting q s.workers) (lookup s.termination_warnings q) succeed
            ∙ ap (λ t. evicts (is_evicting q s.workers) (lookup s.termination_warnings q) t succeed)
                same;
      }

  -- Without a notice the updates do not matter.
  pub IsNoted-none :
      (b c : Bool) (s s' : SpotOrchestrator) → IsNoted none b s s' → IsNoted none c s s'
  IsNoted-none b c s s' h =
      let none_b = unchanged b s in
      record { warning = h.warning; worker = h.worker ∙ sym none_b.worker ∙ (unchanged c s).worker }

  pub IsNoted-trans :
      (t u : Option Time) (b : Bool) (s s' s'' : SpotOrchestrator)
      → IsNoted t b s s'
      → IsNoted u b s' s''
      → IsNoted (or_else t u) b s s''
  IsNoted-trans t u b s s' s'' h k =
      let before = lookup s.termination_warnings q in
      record {
        warning = k.warning ∙ ap (λ x. or_else x u) h.warning ∙ or_else_assoc before t u;
        worker =
            k.worker
            ∙ rw (h.worker, h.warning) (evicts_twice (is_evicting q s.workers) b before t u);
      }

  -- A warning where there was none.
  new_warning :
      (succeed : Bool) (name : String) (t : Time) (s : SpotOrchestrator) (workers : List Node)
      → lookup s.termination_warnings name ≡ none
      → is_evicting q workers ≡ (
          if str_eq q name
          then if is_evicting q s.workers then true else succeed
          else is_evicting q s.workers)
      → IsNoted (if str_eq q name then some t else none) succeed s (record {
        termination_warnings = insert s.termination_warnings name t;
        workers = workers;
      })
  new_warning succeed name t s workers free e =
      let found = lookup-insert s.termination_warnings name t q in
      elim (Bool-cases (str_eq q name)) [
        | inl same ↦
            let fresh = ap (lookup s.termination_warnings) ((eq_iff q name).0 same) ∙ free in
            rw same (record {
              warning = rw fresh (found ∙ rw same refl);
              worker = rw fresh (e ∙ rw same refl);
            })
        | inr other ↦
            let none_new = unchanged succeed s in
            rw other (record {
              warning = found ∙ rw other none_new.warning;
              worker = e ∙ rw other none_new.worker;
            })
      ]

  either_same : (c was : Bool) → was ≡ (if c then if was then true else false else was)
  either_same true true = refl
  either_same true false = refl
  either_same false was = refl

  either_true :
      (c was : Bool) → (if c then true else was) ≡ (if c then if was then true else true else was)
  either_true true true = refl
  either_true true false = refl
  either_true false was = refl

  warned-IsNoted :
      (shown : String) (a b : Option Error) (node : Node) (t : Time) (s : SpotOrchestrator)
      → lookup s.termination_warnings node.name ≡ none
      → IsNoted
          (if str_eq q node.name then some t else none)
          (both_succeed (record { to_annotations = a; to_cordon = b }))
          s
          (after_handling s
            (warned (insert s.termination_warnings node.name t) (with_annotations shown node) a b))
  unfolding with_annotations is_evicting
  warned-IsNoted shown (some e) b node t s free =
      new_warning false node.name t s s.workers free
        (either_same (str_eq q node.name) (is_evicting q s.workers))
  warned-IsNoted shown none (some e) node t s free =
      new_warning false node.name t s s.workers free
        (either_same (str_eq q node.name) (is_evicting q s.workers))
  warned-IsNoted shown none none node t s free =
      new_warning true node.name t s _ free
        (either_true (str_eq q node.name) (is_evicting q s.workers))

module _ (format : Time → String) (q : String) where
  no_notice :
      (c succeed : Bool) (s : SpotOrchestrator) → IsNoted q (if c then none else none) succeed s s
  no_notice true b s = unchanged q b s
  no_notice false b s = unchanged q b s

  -- A node that has its warning is passed over.
  passed_over :
      (succeed : Bool) (name : String) (t earlier : Time) (s : SpotOrchestrator)
      → lookup s.termination_warnings name ≡ some earlier
      → IsNoted q (if str_eq q name then some t else none) succeed s s
  passed_over b name t earlier s found = elim (Bool-cases (str_eq q name)) [
    | inr other ↦ rw other (unchanged q b s)
    | inl same ↦
        let there = ap (lookup s.termination_warnings) ((eq_iff q name).0 same) ∙ found in
        rw same (record { warning = rw there refl; worker = rw there (ground arith) })
  ]

  pub noticed-IsNoted :
      (notice : Result (Option Time)) (a : UpdateAnswers) (node : Node) (s : SpotOrchestrator)
      → IsNoted q
          (if str_eq q node.name then time_of notice else none)
          (both_succeed a)
          s
          (noticed format notice a node s)
  unfolding handle_spot_termination
  noticed-IsNoted (err e) a node s = no_notice (str_eq q node.name) (both_succeed a) s
  noticed-IsNoted (ok none) a node s = no_notice (str_eq q node.name) (both_succeed a) s
  noticed-IsNoted (ok (some t)) a node s =
      elim (Option-cases (lookup s.termination_warnings node.name)) [
        | inl free ↦
            rw (handle_spot_termination, free)
              (warned-IsNoted q (format t) a.to_annotations a.to_cordon node t s free)
        | inr (earlier, found) ↦
            rw (handle_spot_termination, found)
              (passed_over (both_succeed a) node.name t earlier s found)
      ]
