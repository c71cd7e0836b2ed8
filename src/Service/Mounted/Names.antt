-- ===== src/Service/Mounted/Names.antt =====
-- toolbox/service.py: dotted names of mounted tools, and what `_resolve_mounted_tool` makes of them.
use Prim.Native.String.{◌++◌ as append}
use text.Mathlib.TextLemmas.{append_assoc}
use toolbox_mcp.Prelude.{
  String, ◌≡◌, refl, ◌∙◌, sym, ap, subst, true, false, Option, none, some, List, [], ◌∷◌, arith,
  ◌==◌, string_eq, contains, contains-sort_by, eq_iff, eq_refl, has_dot, strip_prefix,
  strip_prefix-append, append_of_strip_prefix, first_part_unique, Bool-cases, inl, inr, find_first,
  ne_of_beq, leb, string_length, some-injective,
}
use toolbox_mcp.Models.{Tool}
use toolbox_mcp.Effects.{Runtime, World}
use toolbox_mcp.Transport.{live_runtime, mounted_in}
use toolbox_mcp.Service.Mounted.{
  MountedTool, mounted_tool, mounted_tool_name, tool_in, resolved_tool, resolve_after, resolve_in,
  longest_first, resolve_mounted_tool,
}

-- A tool of a running runtime under its dotted name.
pub record IsMountedAs (w : World) (name : String) (m : MountedTool) : Type 0 where
  pub named : m.mounted_name ≡ name
  pub dotted : mounted_tool_name m.namespace m.source_name ≡ name
  pub tool : Tool
  pub found : tool_in (live_runtime w m.namespace) m.source_name ≡ some tool
  pub same : m ≡ mounted_tool m.namespace name tool

name_of_tool_in : (o : Option Runtime) (k : String) (t : Tool) → tool_in o k ≡ some t → t.name ≡ k
unfolding tool_in
name_of_tool_in none k t h = cc
name_of_tool_in (some runtime) k t h = in_list runtime.tools h
  where
    in_list : (ts : List Tool) → find_first (λ tool. tool.name == k) ts ≡ some t → t.name ≡ k
    in_list [] h = cc
    in_list (x ∷ xs) h = ground (arith, in_list xs, eq_iff x.name k)

resolved-IsMountedAs :
    (w : World) (name n src : String) (o : Option Tool) (rest : Option MountedTool)
    (m : MountedTool)
    → mounted_tool_name n src ≡ name
    → tool_in (live_runtime w n) src ≡ o
    → (rest ≡ some m → IsMountedAs w name m)
    → resolved_tool n name o rest ≡ some m
    → IsMountedAs w name m
unfolding resolved_tool
resolved-IsMountedAs w name n src none rest m dotted found later h = later h
resolved-IsMountedAs w name n src (some t) rest m dotted found later h =
    let same : t.name ≡ src = name_of_tool_in (live_runtime w n) src t found in
    subst (IsMountedAs w name) (some-injective (mounted_tool n name t) m h) (record {
      named = refl;
      dotted = ap (mounted_tool_name n) same ∙ dotted;
      tool = t;
      found = ap (tool_in (live_runtime w n)) same ∙ found;
      same = refl;
    })

after-IsMountedAs :
    (w : World) (name n : String) (o : Option String) (rest : Option MountedTool) (m : MountedTool)
    → strip_prefix (append n ".") name ≡ o
    → (rest ≡ some m → IsMountedAs w name m)
    → resolve_after w n name o rest ≡ some m
    → IsMountedAs w name m
unfolding resolve_after
after-IsMountedAs w name n none rest m stripped later h = later h
after-IsMountedAs w name n (some src) rest m stripped later h =
    resolved-IsMountedAs w name n src _ rest m
      (sym (append_assoc n "." src) ∙ append_of_strip_prefix (append n ".") name src stripped) refl
      later h

resolve_in-IsMountedAs :
    (w : World) (name : String) (L : List String) (m : MountedTool)
    → resolve_in w name L ≡ some m
    → IsMountedAs w name m
unfolding resolve_in
resolve_in-IsMountedAs w name [] m h = cc
resolve_in-IsMountedAs w name (n ∷ L) m h =
    after-IsMountedAs w name n _ (resolve_in w name L) m refl (resolve_in-IsMountedAs w name L m) h

-- The own namespace resolves to its tool, whatever comes later.
own_resolved :
    (w : World) (ns : String) (t : Tool) (rest : Option MountedTool)
    → tool_in (live_runtime w ns) t.name ≡ some t
    → resolve_after w ns
        (mounted_tool_name ns t.name)
        (strip_prefix (append ns ".") (mounted_tool_name ns t.name))
        rest
      ≡ some (mounted_tool ns (mounted_tool_name ns t.name) t)
unfolding resolve_after resolved_tool
own_resolved w ns t rest found =
    rw (← append_assoc ns "." t.name, strip_prefix-append (append ns ".") t.name, found)

other_skipped :
    (w : World) (n ns : String) (t : Tool) (o : Option String) (rest : Option MountedTool)
    → has_dot n ≡ false
    → has_dot ns ≡ false
    → (n == ns) ≡ false
    → strip_prefix (append n ".") (mounted_tool_name ns t.name) ≡ o
    → resolve_after w n (mounted_tool_name ns t.name) o rest ≡ rest
unfolding resolve_after
other_skipped w n ns t none rest dn dns other h = refl
other_skipped w n ns t (some src) rest dn dns other h =
    let same : n ≡ ns = first_part_unique n ns t.name src dn dns h in
    absurd (ne_of_beq n ns other same)

resolve_in_first :
    (w : World) (ns : String) (t : Tool) (L : List String)
    → ((n : String) → contains L n ≡ true → has_dot n ≡ false)
    → contains L ns ≡ true
    → tool_in (live_runtime w ns) t.name ≡ some t
    → resolve_in w (mounted_tool_name ns t.name) L
      ≡ some (mounted_tool ns (mounted_tool_name ns t.name) t)
unfolding resolve_in
resolve_in_first w ns t [] plain held found = cc
resolve_in_first w ns t (n ∷ L) plain held found = elim (Bool-cases (n == ns)) [
  | inl same ↦
      let e : n ≡ ns = (eq_iff n ns).0 same in
      rw e (own_resolved w ns t (resolve_in w (mounted_tool_name ns t.name) L) found)
  | inr other ↦
      other_skipped w n ns t _ (resolve_in w (mounted_tool_name ns t.name) L)
        (plain n (ground (arith, eq_refl n))) (plain ns held) other refl
      ∙ resolve_in_first w ns t L (λ k h. plain k (ground arith)) (ground arith) found
]

-- What a name resolves to is a tool of a running runtime, and the name is its namespace, a dot, and its own
-- name.
pub resolve_mounted_tool-IsMountedAs :
    (w : World) (name : String) (m : MountedTool)
    → resolve_mounted_tool w name ≡ some m
    → IsMountedAs w name m
unfolding resolve_mounted_tool
resolve_mounted_tool-IsMountedAs w name m h = resolve_in-IsMountedAs w name _ m h

-- Where no mounted namespace has a dot in it, the dotted name of a tool of a mounted namespace resolves to
-- that tool.
pub resolve-mounted_tool_name :
    (w : World) (ns : String) (t : Tool)
    → ((n : String) → contains (mounted_in w) n ≡ true → has_dot n ≡ false)
    → contains (mounted_in w) ns ≡ true
    → tool_in (live_runtime w ns) t.name ≡ some t
    → resolve_mounted_tool w (mounted_tool_name ns t.name)
      ≡ some (mounted_tool ns (mounted_tool_name ns t.name) t)
unfolding resolve_mounted_tool
resolve-mounted_tool_name w ns t plain held found =
    let sorted = λ (n : String).
      contains-sort_by (λ a b. leb (string_length b) (string_length a)) (mounted_in w) n in
    resolve_in_first w ns t (longest_first (mounted_in w)) (λ n h. plain n (sym (sorted n) ∙ h))
      (sorted ns ∙ held) found
