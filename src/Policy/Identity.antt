-- ===== src/Policy/Identity.antt =====
-- crates/skimasque-policy/src/identity.rs: the workload that a policy is evaluated for.
use skimasque.Prelude.{Bool, true, false, Option, none, some}
use skimasque.Prelude.Text.{Text, codes, strip_prefix, rsplit_once}

pub data WorkloadKind : Type 0 where
  developer ci agent : WorkloadKind

-- `a == b`
abbrev pub kind_eq : WorkloadKind → WorkloadKind → Bool
kind_eq developer developer = true
kind_eq ci ci = true
kind_eq agent agent = true
kind_eq _ _ = false

pub record WorkloadIdentity : Type 0 where
  pub organization : Option Text
  pub repository : Option Text
  pub workflow : Option Text
  pub git_ref : Option Text
  pub environment : Option Text
  pub actor : Option Text
  pub kind : Option WorkloadKind
  pub run_id : Option Text
  pub runtime : Option Text
  pub sid : Option Text

abbrev pub branch : WorkloadIdentity → Option Text
branch identity = elim identity.git_ref [
  | none ↦ none
  | some git_ref ↦ strip_prefix git_ref (codes "refs/heads/")
]

abbrev pub repository_name : WorkloadIdentity → Option Text
repository_name identity = elim identity.repository [
  | none ↦ none
  | some repo ↦ elim (rsplit_once b'/' repo) [ none ↦ some repo | some r ↦ some (r.1) ]
]
