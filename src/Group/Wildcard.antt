-- ===== src/Group/Wildcard.antt =====
-- WildcardCovers of internal/group/group.go covers one label and no more.
use wecert.Base.{
  ◌≡◌, ◌≢◌, ◌↔◌, true, false, not, ◌&&◌, Option, none, some, [], ◌++◌, Text, codes, text_eq,
  text_eq_iff, has_prefix, cut_suffix, trim_prefix, after_prefix, contains_byte, arith, refl, ap,
  eq-append_of_has_prefix, eq-append_of_cut_suffix, cut_suffix-append, length, length-append,
}
use wecert.Group.{one_label, wildcard_covers}

-- The host is one label without a dot under the parent of the wildcard.
abbrev pub OneLabelUnder : Text → Text → Type 0
OneLabelUnder wc host =
    (label : Text) × (parent : Text) × (wc ≡ codes "*." ++ parent)
    × (host ≡ label ++ (codes "." ++ parent))
    × (label ≢ [])
    × (contains_byte 46 label ≡ false)

-- The test, once the parent is known.
wildcard_covers-under :
    (parent host : Text)
    → wildcard_covers (codes "*." ++ parent) host
      ≡ (not (text_eq host parent) && one_label (cut_suffix host (codes "." ++ parent)))
unfolding wildcard_covers has_prefix trim_prefix after_prefix
wildcard_covers-under parent host = ground arith

is_wildcard_of_covers :
    (wc host : Text) → wildcard_covers wc host ≡ true → has_prefix wc (codes "*.") ≡ true
unfolding wildcard_covers
is_wildcard_of_covers wc host h = ground arith

one_label_lem :
    (o : Option Text)
    → one_label o ≡ true
    → (l : Text) × (o ≡ some l) × (l ≢ []) × (contains_byte 46 l ≡ false)
one_label_lem none h = cc
one_label_lem (some l) h = (l, refl, λ e. ground (arith, text_eq_iff l []), ground arith)

covers_sound : (wc host : Text) → wildcard_covers wc host ≡ true → OneLabelUnder wc host
covers_sound wc host h =
    let (parent, e, f) =
      eq-append_of_has_prefix wc (codes "*.") (is_wildcard_of_covers wc host h) in
    let test : wildcard_covers (codes "*." ++ parent) host ≡ true = rw (← f) h in
    let (l, q, ne, plain) =
      one_label_lem (cut_suffix host (codes "." ++ parent))
        (ground (arith, wildcard_covers-under parent host)) in
    (l, parent, f, eq-append_of_cut_suffix host (codes "." ++ parent) l q, ne, plain)

-- A host is longer than the parent that it stands under.
host-ne-parent : (l parent : Text) → l ++ (codes "." ++ parent) ≢ parent
host-ne-parent l parent e = omega (arith, length-append {0} l (codes "." ++ parent), ap length e)

covers_complete : (wc host : Text) → OneLabelUnder wc host → wildcard_covers wc host ≡ true
covers_complete wc host (l, parent, e, f, g, h) =
    rw (e, f, wildcard_covers-under, cut_suffix-append)
      (ground (
        arith,
        text_eq_iff (l ++ (codes "." ++ parent)) parent,
        host-ne-parent l parent,
        text_eq_iff l [],
      ))

-- A wildcard covers exactly the hosts with one more label than its parent: not the parent itself, and
-- nothing two labels below it.
pub wildcard_covers_iff :
    (wc host : Text) → (wildcard_covers wc host ≡ true) ↔ OneLabelUnder wc host
wildcard_covers_iff wc host = (covers_sound wc host, covers_complete wc host)
