-- ===== src/Workload/Annotations/Rules.antt =====
-- The rules of annotation-based reloads, as a relation in which their order plays no part.
use reloader_operator.Base.{
  String, Bool, true, false, none, some, ◌==◌, ◌≡◌, ◌≢◌, ◌↔◌, ◌⊎◌, ◌&&◌, refl, arith, eq_iff,
  StringMap, index, inl, inr, Bool-cases, Some, List, [], ◌∷◌, sym, ◌∙◌,
}
use reloader_operator.Kube.{Object, get_annotations}
use reloader_operator.Util.Names.{
  annotation_ignore, annotation_auto, annotation_secret_auto, annotation_config_map_auto,
  annotation_secret_reload, annotation_config_map_reload, annotation_search, annotation_match,
  kind_secret, kind_config_map, contains_string,
}
use reloader_operator.Util.CommaLists.{parse_comma_separated_list}
use reloader_operator.Workload.Annotations.{
  pod_spec_of, references, reload_list, reload_by_name_or_match, reload_by_type, reload_by_rules,
  should_reload_from_annotations,
}

contains_string_iff :
    (items : List String) (s : String)
    → (contains_string items s ≡ true) ↔ Some (λ item. item ≡ s) items
unfolding contains_string
contains_string_iff [] s = ((λ h. cc), λ h. absurd h)
contains_string_iff (item ∷ items) s = ground (arith, eq_iff item s, contains_string_iff items s)

module _ (kind name : String) (m resource : StringMap) (referenced : Bool) where
  -- The list holds the name.
  abbrev pub Listed : String → Type 0
  Listed text = Some (λ item. item ≡ name) (parse_comma_separated_list text)

  -- The annotation that lists names of the kind is absent or empty; other kinds have none.
  abbrev pub ListsNone : Type 0
  ListsNone =
      ((kind ≡ kind_secret) × (index annotation_secret_reload m ≡ ""))
      ⊎ ((kind ≡ kind_config_map) × (index annotation_config_map_reload m ≡ ""))
      ⊎ ((kind ≢ kind_secret) × (kind ≢ kind_config_map))

  -- A reason to reload: the workload follows all that it refers to, or all of the kind; or it lists
  -- the name; or it lists no names of the kind, searches, and refers to a resource that is marked.
  pub data Reason : Type 0 where
    by_auto : index annotation_auto m ≡ "true" → referenced ≡ true → Reason
    by_secret_auto :
        kind ≡ kind_secret → index annotation_secret_auto m ≡ "true" → referenced ≡ true → Reason
    by_config_map_auto :
        kind ≡ kind_config_map
        → index annotation_config_map_auto m ≡ "true"
        → referenced ≡ true
        → Reason
    by_secret_name :
        kind ≡ kind_secret
        → index annotation_secret_reload m ≢ ""
        → Listed (index annotation_secret_reload m)
        → Reason
    by_config_map_name :
        kind ≡ kind_config_map
        → index annotation_config_map_reload m ≢ ""
        → Listed (index annotation_config_map_reload m)
        → Reason
    by_match :
        ListsNone
        → index annotation_search m ≡ "true"
        → index annotation_match resource ≡ "true"
        → referenced ≡ true
        → Reason

  -- The workload is not ignored, has not switched reloads off, and has a reason.
  pub record Reloads : Type 0 where
    pub not_ignored : index annotation_ignore m ≢ "true"
    pub not_off : index annotation_auto m ≢ "false"
    pub reason : Reason

  -- What the list of names is.
  reload_list-cases :
      ((kind ≡ kind_secret) × (reload_list kind name m ≡ index annotation_secret_reload m))
      ⊎ ((kind ≡ kind_config_map)
          × (reload_list kind name m ≡ index annotation_config_map_reload m))
      ⊎ ((kind ≢ kind_secret) × (kind ≢ kind_config_map) × (reload_list kind name m ≡ ""))
  unfolding reload_list
  reload_list-cases = elim (Bool-cases (kind == kind_secret)) [
    | inl e ↦ inl ((eq_iff kind kind_secret).0 e, rw e refl)
    | inr e ↦ elim (Bool-cases (kind == kind_config_map)) [
      | inl e' ↦ inr (inl ((eq_iff kind kind_config_map).0 e', rw (e, e') refl))
      | inr e' ↦ inr (
          inr (
            (λ q. ground (arith, eq_iff kind kind_secret)),
            (λ q. ground (arith, eq_iff kind kind_config_map)),
            rw (e, e') refl,
          ))
    ]
  ]

  by_name_sound :
      reload_list kind name m ≢ ""
      → contains_string (parse_comma_separated_list (reload_list kind name m)) name ≡ true
      → Reason
  by_name_sound n c = elim reload_list-cases [
    | inl (k, e) ↦ by_secret_name k (rw e at n) ((contains_string_iff _ name).0 (rw e at c))
    | inr (inl (k, e)) ↦
        by_config_map_name k (rw e at n) ((contains_string_iff _ name).0 (rw e at c))
    | inr (inr (k, k', e)) ↦ absurd (n e)
  ]

  lists_none : (reload_list kind name m ≡ "") → ListsNone
  lists_none h = elim reload_list-cases [
    | inl (k, e) ↦ inl (k, sym e ∙ h)
    | inr (inl (k, e)) ↦ inr (inl (k, sym e ∙ h))
    | inr (inr (k, k', e)) ↦ inr (inr (k, k'))
  ]

  list_empty : ListsNone → reload_list kind name m ≡ ""
  unfolding reload_list
  list_empty (inl (k, e)) = rw k e
  list_empty (inr (inl (k, e))) = rw k e
  list_empty (inr (inr (k, k'))) =
      ground (arith, eq_iff kind kind_secret, eq_iff kind kind_config_map)

  by_name_or_match_sound : reload_by_name_or_match kind name m resource referenced ≡ true → Reason
  unfolding reload_by_name_or_match
  by_name_or_match_sound h = elim (Bool-cases (reload_list kind name m == "")) [
    | inl e ↦
        by_match (lists_none ((eq_iff _ _).0 e))
          (ground (arith, eq_iff (index annotation_search m) "true"))
          (ground (arith, eq_iff (index annotation_match resource) "true")) (ground arith)
    | inr e ↦
        by_name_sound (λ p. ground (arith, eq_iff (reload_list kind name m) "")) (ground arith)
  ]

  by_type_sound : reload_by_type kind name m resource referenced ≡ true → Reason
  unfolding reload_by_type
  by_type_sound h =
      elim (Bool-cases
        (kind == kind_secret && index annotation_secret_auto m == "true" && referenced)) [
          | inl e ↦
              by_secret_auto (ground (arith, eq_iff kind kind_secret))
                (ground (arith, eq_iff (index annotation_secret_auto m) "true")) (ground arith)
          | inr e ↦
              elim (Bool-cases (
                kind == kind_config_map
                && index annotation_config_map_auto m == "true"
                && referenced)) [
                  | inl e' ↦
                      by_config_map_auto (ground (arith, eq_iff kind kind_config_map))
                        (ground (arith, eq_iff (index annotation_config_map_auto m) "true"))
                        (ground arith)
                  | inr e' ↦ by_name_or_match_sound (rw (e, e') at h)
                ]
        ]

  by_rules_sound : reload_by_rules kind name m resource referenced ≡ true → Reloads
  unfolding reload_by_rules
  by_rules_sound h = record {
    not_ignored = λ p. ground (arith, eq_iff (index annotation_ignore m) "true");
    not_off = λ p.
        let off : (index annotation_auto m == "false") ≡ true = rw p refl in
        let not_on : (index annotation_auto m == "true") ≡ false = rw p refl in ground arith;
    reason = elim (Bool-cases (index annotation_auto m == "true" && referenced)) [
      | inl e ↦ by_auto (ground (arith, eq_iff (index annotation_auto m) "true")) (ground arith)
      | inr e ↦ by_type_sound (ground arith)
    ];
  }

  by_name_complete :
      (list : String)
      → reload_list kind name m ≡ list
      → list ≢ ""
      → Listed list
      → reload_by_type kind name m resource referenced ≡ true
  unfolding reload_by_type reload_by_name_or_match
  by_name_complete list e n c =
      let given : (list == "") ≡ false = ground (arith, eq_iff list "") in
      let has : contains_string (parse_comma_separated_list list) name ≡ true =
        (contains_string_iff _ name).1 c in
      ground (arith, e, given, has)

  reason_complete :
      Reason
      → (reload_by_type kind name m resource referenced ≡ true)
        ⊎ ((index annotation_auto m ≡ "true") × (referenced ≡ true))
  unfolding reload_by_type reload_by_name_or_match
  reason_complete (by_auto a b) = inr (a, b)
  reason_complete (by_secret_auto k a b) = inl (rw (k, a, b) refl)
  reason_complete (by_config_map_auto k a b) = inl (rw (k, a, b) refl)
  reason_complete (by_secret_name k l c) =
      inl
        (by_name_complete (index annotation_secret_reload m) (unfold reload_list in rw k refl) l c)
  reason_complete (by_config_map_name k l c) = inl (
      by_name_complete (index annotation_config_map_reload m) (unfold reload_list in rw k refl) l c)
  reason_complete (by_match l a b c) = inl (
      ground (
        arith,
        eq_iff (reload_list kind name m) "",
        list_empty l,
        eq_iff (index annotation_search m) "true",
        eq_iff (index annotation_match resource) "true",
      ))

  by_rules_complete : Reloads → reload_by_rules kind name m resource referenced ≡ true
  unfolding reload_by_rules
  by_rules_complete w = ground (
    arith,
    reason_complete w.reason,
    w.not_ignored,
    w.not_off,
    eq_iff (index annotation_ignore m) "true",
    eq_iff (index annotation_auto m) "true",
    eq_iff (index annotation_auto m) "false",
  )

-- The guard on nil annotations, with the rules behind it.
abbrev guarded : String → String → StringMap → StringMap → Bool → Bool
guarded kind name none resource referenced = false
guarded kind name (some m) resource referenced =
    reload_by_rules kind name (some m) resource referenced

guarded_iff :
    (kind name : String) (m resource : StringMap) (referenced : Bool)
    → (guarded kind name m resource referenced ≡ true)
      ↔ ((m ≢ none) × Reloads kind name m resource referenced)
guarded_iff kind name none resource referenced = (λ h. cc, λ w. absurd (w.0 refl))
guarded_iff kind name (some m) resource referenced = (
  λ h. (λ e. cc, by_rules_sound kind name (some m) resource referenced h),
  λ w. by_rules_complete kind name (some m) resource referenced w.1,
)

-- A workload with annotations is reloaded exactly when it is not ignored, has not switched reloads
-- off by "auto", and has a reason. One without annotations is never reloaded.
pub should_reload_iff :
    (kind name : String) (obj : Object) (resource : StringMap)
    → (should_reload_from_annotations kind name obj resource ≡ true) ↔ (
        (get_annotations obj ≢ none)
        × Reloads kind name (get_annotations obj) resource (references (pod_spec_of obj) kind name))
unfolding should_reload_from_annotations
should_reload_iff kind name obj resource =
    let referenced = references (pod_spec_of obj) kind name in
    let same : should_reload_from_annotations kind name obj resource
        ≡ guarded kind name (get_annotations obj) resource referenced =
      ground arith in
    rw same (guarded_iff kind name (get_annotations obj) resource referenced)
