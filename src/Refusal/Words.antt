-- ===== src/Refusal/Words.antt =====
-- The names that internal/acme/manager_renew.go reads out of a refusal are those that the CA wrote.
use wecert.Base.{
  ℕ, ◌≡◌, Bool, Option, List, text_eq, true, false, none, some, [], ◌∷◌, ◌++◌, Text, codes,
  contains_byte, trim_space, to_lower, lower_byte, arith, refl, ap, ◌∙◌,
}
use wecert.RateLimit.{consecutive_authz_failures_per_identifier}
use wecert.Refusal.{
  new_order_refusal_scope, cut, quoted_domain, after_prefix_fold, after_fold, before_fold,
  before_comma, is_prose, has_prose, looks_like_identifier, paused_domain, paused_name,
}

cut-append :
    (b : ℕ) (lead tail : Text)
    → contains_byte b lead ≡ false
    → cut b (lead ++ b ∷ tail) ≡ some (lead, tail)
unfolding cut contains_byte
cut-append b [] tail h = ground arith
cut-append b (c ∷ lead) tail h = ground (arith, cut-append b lead tail)

-- The name that a refusal is booked for is the first that the CA put in quotes, in lower case, whatever
-- stands around it.
pub quoted_domain_lem :
    (lead name tail : Text)
    → contains_byte 34 lead ≡ false
    → contains_byte 34 name ≡ false
    → quoted_domain (lead ++ 34 ∷ (name ++ 34 ∷ tail)) ≡ to_lower name
unfolding quoted_domain
quoted_domain_lem lead name tail h k =
    ground (arith, cut-append 34 lead (name ++ 34 ∷ tail) h, cut-append 34 name tail k)

after_prefix_fold-append : (p tail : Text) → after_prefix_fold (p ++ tail) p ≡ some tail
unfolding after_prefix_fold
after_prefix_fold-append [] tail = refl
after_prefix_fold-append (c ∷ p) tail = ground (arith, after_prefix_fold-append p tail)

after_prefix_fold-space :
    (c : ℕ) (s p : Text) → is_prose c ≡ false → after_prefix_fold (c ∷ s) (32 ∷ p) ≡ none
unfolding after_prefix_fold is_prose lower_byte
after_prefix_fold-space c s p h = ground arith

-- A name without a space is kept whole, whatever follows it.
before_fold-append :
    (name p s : Text)
    → has_prose name ≡ false
    → before_fold (name ++ s) (32 ∷ p) ≡ name ++ before_fold s (32 ∷ p)
unfolding before_fold has_prose
before_fold-append [] p s h = refl
before_fold-append (c ∷ name) p s h =
    ground (arith, after_prefix_fold-space c (name ++ s) p, before_fold-append name p s)

before_fold_here : (p tail : Text) → before_fold ((32 ∷ p) ++ tail) (32 ∷ p) ≡ []
unfolding before_fold
before_fold_here p tail = ground (arith, after_prefix_fold-append (32 ∷ p) tail)

before_fold_comma : (p s : Text) → before_fold (44 ∷ s) (32 ∷ p) ≡ 44 ∷ before_fold s (32 ∷ p)
unfolding before_fold is_prose
before_fold_comma p s = ground (arith, after_prefix_fold-space 44 s p refl)

before_comma-append :
    (name s : Text)
    → contains_byte 44 name ≡ false
    → before_comma (name ++ s) ≡ name ++ before_comma s
unfolding before_comma contains_byte
before_comma-append [] s h = refl
before_comma-append (c ∷ name) s h = ground (arith, before_comma-append name s)

before_comma_here : (s : Text) → before_comma (44 ∷ s) ≡ []
unfolding before_comma
before_comma_here s = refl

append_nil : (s : Text) → s ++ [] ≡ s
append_nil [] = refl
append_nil (c ∷ s) = ap (λ t. c ∷ t) (append_nil s)

abbrev pub pause_lead : Text
pause_lead = codes "Your account is temporarily prevented from requesting certificates for "

after_fold-pause_lead :
    (rest : Text)
    → after_fold
        (pause_lead ++ rest)
        (codes "temporarily prevented from requesting certificates for ")
      ≡ some rest
unfolding after_fold after_prefix_fold lower_byte
after_fold-pause_lead rest = refl

-- What follows the first name of a pause: the next name, or the end of the list.
pub data AfterName : Text → Type 0 where
  next_name : (s : Text) → AfterName (44 ∷ s)
  end_of_list : (s : Text) → AfterName (codes " and possibly" ++ s)

AfterName-before_comma :
    {s : Text} → AfterName s → before_comma (before_fold s (codes " and possibly")) ≡ []
unfolding before_comma
AfterName-before_comma (next_name s) = ap before_comma (before_fold_comma (codes "and possibly") s)
AfterName-before_comma (end_of_list s) = ap before_comma (before_fold_here (codes "and possibly") s)

name_read :
    (name s : Text)
    → AfterName s
    → has_prose name ≡ false
    → contains_byte 44 name ≡ false
    → before_comma (before_fold (name ++ s) (codes " and possibly")) ≡ name
name_read name s after plain comma =
    ap before_comma (before_fold-append name (codes "and possibly") s plain)
    ∙ before_comma-append name (before_fold s (codes " and possibly")) comma
    ∙ ap (λ t. name ++ t) (AfterName-before_comma after)
    ∙ append_nil name

looks-has_prose : (name : Text) → looks_like_identifier name ≡ true → has_prose name ≡ false
unfolding looks_like_identifier
looks-has_prose name h = ground arith

paused_name_lem :
    (name s : Text)
    → AfterName s
    → looks_like_identifier name ≡ true
    → contains_byte 44 name ≡ false
    → trim_space name ≡ name
    → paused_name (some (name ++ s)) ≡ to_lower name
unfolding paused_name
paused_name_lem name s after looks comma trimmed =
    rw (name_read name s after (looks-has_prose name looks) comma, trimmed, looks) refl

paused_domain_lem :
    (name s : Text)
    → AfterName s
    → looks_like_identifier name ≡ true
    → contains_byte 44 name ≡ false
    → trim_space name ≡ name
    → paused_domain (pause_lead ++ (name ++ s)) ≡ to_lower name
unfolding paused_domain
paused_domain_lem name s after looks comma trimmed =
    ap paused_name (after_fold-pause_lead (name ++ s))
    ∙ paused_name_lem name s after looks comma trimmed

cut_absent : (b : ℕ) (s : Text) → contains_byte b s ≡ false → cut b s ≡ none
unfolding cut contains_byte
cut_absent b [] h = refl
cut_absent b (c ∷ s) h = ground (arith, cut_absent b s)

-- Nothing is quoted in a text without quotes.
quoted_domain_absent : (msg : Text) → contains_byte 34 msg ≡ false → quoted_domain msg ≡ []
unfolding quoted_domain
quoted_domain_absent msg h = ground (arith, cut_absent 34 msg h)

to_lower_nonempty :
    (name : Text) → looks_like_identifier name ≡ true → text_eq (to_lower name) [] ≡ false
unfolding to_lower looks_like_identifier text_eq
to_lower_nonempty [] h = ground (arith, h)
to_lower_nonempty (c ∷ name) h = refl

-- A pause is booked for the first of the names that the CA wrote in its refusal, in lower case, whether
-- another name follows it after a comma or the list ends with it by ` and possibly`: for a refusal that
-- starts with `pause_lead` and has no quotes, and a name that could be an identifier, is trimmed and has
-- no comma.
pub new_order_refusal_scope-paused :
    (public_suffix : Text → Text) (is_ipv6 : Text → Bool) (etld_plus_one : Text → Option Text)
    → (domains : List Text) (name s : Text) → AfterName s
    → contains_byte 34 (pause_lead ++ (name ++ s)) ≡ false
    → looks_like_identifier name ≡ true
    → contains_byte 44 name ≡ false
    → trim_space name ≡ name
    → new_order_refusal_scope public_suffix is_ipv6 etld_plus_one
        consecutive_authz_failures_per_identifier domains
        (pause_lead ++ (name ++ s))
      ≡ to_lower name
unfolding new_order_refusal_scope text_eq
new_order_refusal_scope-paused public_suffix is_ipv6 etld_plus_one domains name s after plain looks
      comma trimmed =
    rw
      (
        quoted_domain_absent (pause_lead ++ (name ++ s)) plain,
        paused_domain_lem name s after looks comma trimmed,
        to_lower_nonempty name looks,
      )
      refl
