-- ===== src/Policy/Lint.antt =====
-- crates/skimasque-policy/src/lint.rs: concerns about policies that parse but are likely too broad.
pub mod Clean
use skimasque.Prelude.{
  ℕ, List, [], ◌∷◌, ◌++◌, Bool, true, false, not, ◌&&◌, Option, none, some, ◌==◌, if◌then◌else◌,
  any,
}
use skimasque.Prelude.Text.{Text, codes}
use skimasque.Policy.Model.{MatchSpec, Policy, Rule, Action, allow, deny, specificity}

pub data LintCode : Type 0 where
  match_governs_every_workload match_lacks_repository match_lacks_ref : LintCode

-- `LintCode::as_str`
abbrev pub as_str : LintCode → Text
as_str match_governs_every_workload = codes "match-governs-every-workload"
as_str match_lacks_repository = codes "match-lacks-repository"
as_str match_lacks_ref = codes "match-lacks-ref"

pub record Lint : Type 0 where
  pub policy : Text
  pub code : LintCode
  pub message : Text

abbrev pub is_allow : Rule → Bool
is_allow rule = elim rule.action [ allow ↦ true | deny ↦ false ]

abbrev pub is_none : {A : Type 0} → Option A → Bool
is_none none = true
is_none (some _) = false

abbrev pub word : {A : Type 0} → Option A → Text → List Text
word none name = []
word (some _) name = name ∷ []

-- `join(", ")`
abbrev pub join : List Text → Text
join [] = []
join (t ∷ []) = t
join (t ∷ u ∷ rest) = t ++ codes ", " ++ join (u ∷ rest)

unfoldable pub constrained_field_names : Policy → Text
constrained_field_names p =
    let m = p.match_spec in
    join (
      word m.organization (codes "organization")
      ++ word m.workflow (codes "workflow")
      ++ word m.git_ref (codes "git_ref")
      ++ word m.branch (codes "branch")
      ++ word m.environment (codes "environment")
      ++ word m.actor (codes "actor")
      ++ word m.kind (codes "kind"))

abbrev pub make : Policy → LintCode → Text → Lint
make p c text = record { policy = p.name; code = c; message = text }

abbrev pub every_workload : Text
every_workload =
    codes
      "the [match] block is empty, so every workload with a valid credential is granted this policy's allow rules; add repository (and a branch) unless this is a deliberate single-tenant catch-all"

abbrev pub any_ref : Text
any_ref =
    codes
      "[match] pins a repository but no branch or git_ref, so any ref matches -- including a pull-request branch from an outside contributor; add branch or git_ref to keep untrusted refs out"

abbrev pub any_repository : Text → Text
any_repository named =
    codes "[match] constrains "
    ++ named
    ++ codes " but not repository, so a workload from any repository that satisfies "
    ++ named
    ++ codes " is granted this policy's allow rules; pin repository as well"

-- `Policy::lints`
unfoldable pub lints : Policy → List Lint
lints p =
    let m = p.match_spec in
    if not (any is_allow p.rules)
    then []
    else if specificity m == 0
    then make p match_governs_every_workload every_workload ∷ []
    else if is_none m.repository
    then make p match_lacks_repository (any_repository (constrained_field_names p)) ∷ []
    else if is_none m.branch && is_none m.git_ref
    then make p match_lacks_ref any_ref ∷ []
    else []

-- `PolicySet::lints`
unfoldable pub set_lints : List Policy → List Lint
set_lints [] = []
set_lints (p ∷ policies) = lints p ++ set_lints policies
