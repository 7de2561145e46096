-- ===== src/Cmd/Main/Ignored.antt =====
-- The namespaces to ignore.
use reloader_operator.Base.{
  String, Bool, true, false, none, some, List, [], ◌∷◌, ◌≡◌, ◌∙◌, ap, refl, ◌==◌, if◌then◌else◌,
  arith, Bool-cases, GoMap, All, lookup, assign, lookup-assign, lookup-empty, inl, inr,
}
use reloader_operator.Kube.{Object, get_namespace}
use reloader_operator.Platform.{Platform, State}
use reloader_operator.Util.Names.{contains_string}
use reloader_operator.Util.Keys.{split}
use reloader_operator.Util.CommaLists.{trim_space, trimmed_parts, parse_comma_separated_list}
use reloader_operator.Controller.Reconciler.{Reconciler}
use reloader_operator.Controller.Setup.{Watch, watches, after_cache_sync}
use reloader_operator.Controller.Predicates.Agreement.{Blocks, ignored_namespace}
use reloader_operator.Cmd.Flags.{Flags}
use reloader_operator.Cmd.Process.{Process}
use reloader_operator.Cmd.Configure.{ignore_each, ignored_namespaces, reconciler_of}
use reloader_operator.Cmd.Main.{ran, main}
use reloader_operator.Cmd.Main.Runs.{main-ran}

lookup-ignore_each :
    (parts : List String) (ignored : GoMap Bool) (ns : String)
    → lookup ns (ignore_each parts ignored)
      ≡ (if contains_string (trimmed_parts parts) ns then some true else lookup ns ignored)
unfolding ignore_each trimmed_parts contains_string
lookup-ignore_each [] ignored ns = refl
lookup-ignore_each (part ∷ parts) ignored ns = elim (Bool-cases (trim_space part == "")) [
  | inl e ↦ rw e (lookup-ignore_each parts ignored ns)
  | inr e ↦ rw e (
      lookup-ignore_each parts (assign (trim_space part) true ignored) ns
      ∙ rw (lookup-assign (trim_space part) ns true ignored) (ground arith))
]

-- A namespace is ignored exactly if it is in the list that `ParseCommaSeparatedList` makes of the flag.
pub lookup-ignored_namespaces :
    (namespaces ns : String)
    → lookup ns (ignored_namespaces namespaces)
      ≡ (if contains_string (parse_comma_separated_list namespaces) ns then some true else none)
unfolding ignored_namespaces parse_comma_separated_list contains_string
lookup-ignored_namespaces namespaces ns = elim (Bool-cases (namespaces == "")) [
  | inl e ↦ rw e (lookup-empty {V = Bool} ns)
  | inr e ↦ rw e (
      lookup-ignore_each (split namespaces ",") (some []) ns ∙ rw (lookup-empty {V = Bool} ns) refl)
]

-- The namespaces to ignore are the same before and after the caches are synced.
after_cache_sync-ignores :
    (synced : Bool) (r : Reconciler) (ns : String)
    → lookup ns (after_cache_sync synced r).ignored_namespaces ≡ lookup ns r.ignored_namespaces
unfolding after_cache_sync
after_cache_sync-ignores true r ns = refl
after_cache_sync-ignores false r ns = refl

-- A process that runs lets no event of an object through whose namespace its flag names, whatever else
-- the flags are, both before its caches are synced and after: neither the watch of Secrets nor the one
-- of ConfigMaps passes a creation, an update or a deletion of it.
pub main-ignores :
    (o : Process) (flags : Flags) (w : o.World) (r : Reconciler) (p : Platform) (obj : Object)
    (s : State p.World) (synced : Bool)
    → (main o flags w).0 ≡ ran r
    → contains_string (parse_comma_separated_list flags.namespaces_to_ignore) (get_namespace obj)
      ≡ true
    → All
        (λ (watch : Watch p.World). Blocks p (after_cache_sync synced r) obj s watch.predicates)
        (watches p (after_cache_sync synced r))
unfolding reconciler_of watches
main-ignores o flags w r p obj s synced h named =
    let (resources, namespaces, _, _, same) = (main-ran o flags w r h).1 in
    let found : lookup (get_namespace obj) (ignored_namespaces flags.namespaces_to_ignore)
        ≡ some true =
      lookup-ignored_namespaces flags.namespaces_to_ignore (get_namespace obj) ∙ rw named refl in
    let (secrets, config_maps) = ignored_namespace p (after_cache_sync synced r) obj s (
      after_cache_sync-ignores synced r _
      ∙ ap (λ (x : Reconciler). lookup (get_namespace obj) x.ignored_namespaces) same
      ∙ found) in
    (secrets, (config_maps, tt))
