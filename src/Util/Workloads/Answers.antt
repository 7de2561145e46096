-- ===== src/Util/Workloads/Answers.antt =====
-- What a workload by kind is, in terms of what the client answers.
use reloader_operator.Base.{
  String, false, ◌==◌, ◌≡◌, ◌≢◌, ◌⊎◌, refl, [], ◌∷◌, sym, ◌∙◌, arith, eq_iff, Bool-cases, inl, inr,
}
use reloader_operator.Kube.{
  ok, err, errorf, Result-cases, GoError, Workload, workload, WorkloadType, deployment,
  stateful_set, daemon_set,
}
use reloader_operator.Platform.{Platform, State}
use reloader_operator.Util.Workloads.{get_workload, get_object}

-- The kind of the workloads of a type.
abbrev pub type_name : WorkloadType → String
type_name deployment = "Deployment"
type_name stateful_set = "StatefulSet"
type_name daemon_set = "DaemonSet"

type_name-cases :
    (kind : String)
    → ((t : WorkloadType) × (kind ≡ type_name t)) ⊎ ((t : WorkloadType) → kind ≢ type_name t)
type_name-cases kind = elim (Bool-cases (kind == "Deployment")) [
  | inl e ↦ inl (deployment, (eq_iff kind "Deployment").0 e)
  | inr a ↦ elim (Bool-cases (kind == "StatefulSet")) [
    | inl e ↦ inl (stateful_set, (eq_iff kind "StatefulSet").0 e)
    | inr b ↦ elim (Bool-cases (kind == "DaemonSet")) [
      | inl e ↦ inl (daemon_set, (eq_iff kind "DaemonSet").0 e)
      | inr c ↦ inr (none_named a b c)
    ]
  ]
]
  where
    none_named :
        (kind == "Deployment") ≡ false
        → (kind == "StatefulSet") ≡ false
        → (kind == "DaemonSet") ≡ false
        → (t : WorkloadType) → kind ≢ type_name t
    none_named a b c deployment e = ground (arith, eq_iff kind "Deployment")
    none_named a b c stateful_set e = ground (arith, eq_iff kind "StatefulSet")
    none_named a b c daemon_set e = ground (arith, eq_iff kind "DaemonSet")

ok-ne-err : {A : Type 0} {a : A} {e : GoError} → ok a ≢ err e
ok-ne-err h = cc

module _ (p : Platform) (kind name namespace : String) (s : State p.World) where
  -- The client has the workload.
  abbrev pub IsRead : WorkloadType → Workload → Type 0
  IsRead t w =
      (kind ≡ type_name t)
      × ((p.get_workload t (record { namespace = namespace; name = name }) s.world).0 ≡ ok w)

  get_workload-by_type :
      (t : WorkloadType)
      → kind ≡ type_name t
      → get_workload p kind name namespace s
        ≡ get_object p t (record { namespace = namespace; name = name }) s
  unfolding get_workload
  get_workload-by_type deployment e = rw e refl
  get_workload-by_type stateful_set e = rw e refl
  get_workload-by_type daemon_set e = rw e refl

  get_workload-other :
      ((t : WorkloadType) → kind ≢ type_name t)
      → (e : GoError) × ((get_workload p kind name namespace s).0 ≡ err e)
  unfolding get_workload
  get_workload-other n =
      let a : (kind == "Deployment") ≡ false =
        ground (arith, eq_iff kind "Deployment", n deployment) in
      let b : (kind == "StatefulSet") ≡ false =
        ground (arith, eq_iff kind "StatefulSet", n stateful_set) in
      let c : (kind == "DaemonSet") ≡ false =
        ground (arith, eq_iff kind "DaemonSet", n daemon_set) in
      (errorf ("unsupported workload kind: " ∷ kind ∷ []), rw (a, b, c) refl)

  pub get_workload-IsRead :
      (t : WorkloadType) (w : Workload)
      → IsRead t w
      → (get_workload p kind name namespace s).0 ≡ ok (workload t w)
  get_workload-IsRead t w (k, read) = rw (get_workload-by_type t k, read) refl

  -- What `GetWorkload` returns is the workload that the client has, or an error if it has none.
  pub get_workload-cases :
      ((t : WorkloadType) × (w : Workload) × IsRead t w
        × ((get_workload p kind name namespace s).0 ≡ ok (workload t w)))
      ⊎ ((e : GoError) × ((get_workload p kind name namespace s).0 ≡ err e)
          × ((t : WorkloadType) → (w : Workload) → IsRead t w → ⊥))
  get_workload-cases = elim (type_name-cases kind) [
    | inl (t, k) ↦
        elim (Result-cases
          (p.get_workload t (record { namespace = namespace; name = name }) s.world).0) [
            | inl (w, read) ↦ inl (t, w, (k, read), get_workload-IsRead t w (k, read))
            | inr (e, failed) ↦
                let fails : (get_workload p kind name namespace s).0 ≡ err e =
                  rw (get_workload-by_type t k, failed) refl in
                inr (e, fails, λ t' w read. ok-ne-err (sym (get_workload-IsRead t' w read) ∙ fails))
          ]
    | inr n ↦ let (e, fails) = get_workload-other n in inr (e, fails, λ t w (k, read). n t k)
  ]
