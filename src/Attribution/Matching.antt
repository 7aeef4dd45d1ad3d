-- ===== src/Attribution/Matching.antt =====
-- Which pods an attribution counts, said without the code's tests.
use gpuautoscaler.Prelude.{
  ◌≡◌, ◌≢◌, refl, sym, ◌∙◌, Bool, true, false, Bool-cases, none, some, inl, inr, String, str_eq,
  eq_iff, List, [], ◌∷◌, keep, keep-All, All, All-mono, All-self, All-keep, All-of_keep, Any, GoMap,
  Entries, Entry, if◌then◌else◌,
}
use mathlib.Core.Bool.{false≢true}
use gpuautoscaler.Prelude.Results.{ok}
use gpuautoscaler.Kube.{Pod, is_running, text_at}
use gpuautoscaler.Budget.Spend.{PodsApi, costs_gpu}
use gpuautoscaler.Attribution.Select.{
  CostAttributionSpec, is_wanted, has_entries, has_tags, has_labels, is_matching, namespace_option,
  get_matching_pods,
}

abbrev IsTag : Pod → Entry String → Type 0
IsTag pod e = text_at e.key pod.labels ≡ e.value

abbrev pub HasTags : GoMap String → Pod → Type 0
HasTags none pod = Unit {0}
HasTags (some tags) pod = All (λ (e : Entry String). text_at e.key pod.labels ≡ e.value) tags

-- The pod runs with GPUs, its labels have the values that the attribution gives, and every tag is among
-- its labels.
pub record IsMatch (spec : CostAttributionSpec) (pod : Pod) : Type 0 where
  pub runs : is_running pod.phase ≡ true
  pub experiment : spec.experiment_id ≢ "" → text_at "experiment-id" pod.labels ≡ spec.experiment_id
  pub team : spec.team ≢ "" → text_at "team" pod.labels ≡ spec.team
  pub project : spec.project ≢ "" → text_at "project" pod.labels ≡ spec.project
  pub cost_center : spec.cost_center ≢ "" → text_at "cost-center" pod.labels ≡ spec.cost_center
  pub tags : HasTags spec.tags pod
  pub uses_gpus : costs_gpu pod.containers ≡ true

is_wanted_sound :
    (wanted key : String) (pod : Pod)
    → is_wanted wanted key pod ≡ true
    → wanted ≢ ""
    → text_at key pod.labels ≡ wanted
is_wanted_sound wanted key pod h named = elim (Bool-cases (str_eq wanted "")) [
  | inl blank ↦ absurd (named ((eq_iff wanted "").0 blank))
  | inr given ↦ (eq_iff _ wanted).0 (rw given at h)
]

is_wanted_complete :
    (wanted key : String) (pod : Pod)
    → (wanted ≢ "" → text_at key pod.labels ≡ wanted)
    → is_wanted wanted key pod ≡ true
is_wanted_complete wanted key pod f = elim (Bool-cases (str_eq wanted "")) [
  | inl blank ↦ rw blank refl
  | inr given ↦
      rw given
        ((eq_iff _ wanted).1 (f λ blank. false≢true (sym given ∙ (eq_iff wanted "").1 blank)))
]

has_entries_sound :
    (es : Entries String) (pod : Pod) → has_entries es pod ≡ true → All (IsTag pod) es
unfolding has_entries
has_entries_sound [] pod _ = tt
has_entries_sound (e ∷ es) pod h = elim (Bool-cases (str_eq (text_at e.key pod.labels) e.value)) [
  | inl same ↦ ((eq_iff _ e.value).0 same, has_entries_sound es pod (rw same at h))
  | inr other ↦ absurd (false≢true (rw other at h))
]

has_entries_complete :
    (es : Entries String) (pod : Pod) → All (IsTag pod) es → has_entries es pod ≡ true
unfolding has_entries
has_entries_complete [] pod _ = refl
has_entries_complete (e ∷ es) pod (same, h) =
    rw ((eq_iff (text_at e.key pod.labels) e.value).1 same) (has_entries_complete es pod h)

has_tags_sound : (tags : GoMap String) (pod : Pod) → has_tags tags pod ≡ true → HasTags tags pod
has_tags_sound none pod h = tt
has_tags_sound (some es) pod h = has_entries_sound es pod h

has_tags_complete : (tags : GoMap String) (pod : Pod) → HasTags tags pod → has_tags tags pod ≡ true
has_tags_complete none pod h = refl
has_tags_complete (some es) pod h = has_entries_complete es pod h

-- Both halves of a conjunction of tests.
and_true : (a b : Bool) → (if a then b else false) ≡ true → (a ≡ true) × (b ≡ true)
and_true true b h = (refl, h)
and_true false b h = absurd (false≢true h)

is_matching_sound :
    (spec : CostAttributionSpec) (pod : Pod) → is_matching spec pod ≡ true → IsMatch spec pod
unfolding is_matching
is_matching_sound spec pod h =
    let (runs, h₁) = and_true (is_running pod.phase) _ h in
    let (labels, gpus) = and_true (has_labels spec pod) _ h₁ in
    let (e, h₂) = and_true (is_wanted spec.experiment_id "experiment-id" pod) _ labels in
    let (t, h₃) = and_true (is_wanted spec.team "team" pod) _ h₂ in
    let (p, h₄) = and_true (is_wanted spec.project "project" pod) _ h₃ in
    let (c, tags) = and_true (is_wanted spec.cost_center "cost-center" pod) _ h₄ in
    record {
      runs = runs;
      experiment = is_wanted_sound spec.experiment_id "experiment-id" pod e;
      team = is_wanted_sound spec.team "team" pod t;
      project = is_wanted_sound spec.project "project" pod p;
      cost_center = is_wanted_sound spec.cost_center "cost-center" pod c;
      tags = has_tags_sound spec.tags pod tags;
      uses_gpus = gpus;
    }

is_matching_complete :
    (spec : CostAttributionSpec) (pod : Pod) → IsMatch spec pod → is_matching spec pod ≡ true
unfolding is_matching
is_matching_complete spec pod m =
    rw
      (
        m.runs,
        is_wanted_complete spec.experiment_id "experiment-id" pod m.experiment,
        is_wanted_complete spec.team "team" pod m.team,
        is_wanted_complete spec.project "project" pod m.project,
        is_wanted_complete spec.cost_center "cost-center" pod m.cost_center,
        has_tags_complete spec.tags pod m.tags,
      )
      m.uses_gpus

-- When the API lists pods for the attribution's labels and its namespace, if it has one, the pods counted
-- are all of these that match: running, with GPUs, with the label of each criterion that is not empty
-- and with every tag.
pub get_matching_pods-IsMatch :
    (api : PodsApi) (spec : CostAttributionSpec) (listed : List Pod)
    → api (namespace_option spec) spec.labels ≡ ok listed
    → (pods : List Pod) × (get_matching_pods api spec ≡ ok pods)
      × All (IsMatch spec) pods
      × All (λ p. Any (λ q. q ≡ p) listed) pods
      × All (λ p. IsMatch spec p → Any (λ q. q ≡ p) pods) listed
unfolding get_matching_pods
get_matching_pods-IsMatch api spec listed answer =
    let p = is_matching spec in
    (
      keep p listed,
      rw answer refl,
      All-mono (keep p listed) (is_matching_sound spec) (keep-All p listed),
      All-keep _ p listed (All-self listed),
      All-mono listed (λ q f m. f (is_matching_complete spec q m))
          (All-of_keep _ p listed (All-self (keep p listed))),
    )
