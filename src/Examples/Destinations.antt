-- ===== src/Examples/Destinations.antt =====
-- Runs of the destination parsers on concrete texts.
use skimasque.Prelude.{[], ◌∷◌, some, none, Result, ok, err, ◌≡◌, refl, sym, ◌∙◌, ◌↔◌, arith, true}
use mathlib.Core.Path.{subst}
use skimasque.Prelude.Text.{codes}
use skimasque.Prelude.Trim.{trim}
use skimasque.Net.{v4}
use skimasque.Net.Parse.{parse_ip}
use skimasque.Policy.Destination.{
  Destination, name, show, DestinationSpec, cidr, any_port, exact, spec_matches, exact_port,
}
use skimasque.Policy.Destination.Parse.{
  parse, parse_spec, parse_host_spec, parse_host_pattern, parse_port_pattern, parse_host_literal,
  parse_cidr, cidr_or_host, split_spec, split_host_port, split_after, split_plain, split_bracketed,
  wildcard_or_literal, address_or_literal, literal_pattern, name_or_ip, unbracketed, port_or_range,
  parse_range, bad_port, missing_port,
}
use skimasque.Policy.Destination.Parse.{ParseDestinationError}
use skimasque.Policy.Identity.{WorkloadIdentity}
use skimasque.Policy.Model.{tcp}
use skimasque.Policy.Eval.{RequestContext, evaluate_policy}
use skimasque.Policy.Units.{parse_duration, duration}
use skimasque.Policy.Units.Sums.{hours, minutes}
use skimasque.Policy.Units.Durations.{parse_duration-spell}
use skimasque.Policy.Learn.{Observation, Suggestion, suggest_policy}
use skimasque.Prelude.{Some}
use skimasque.Policy.Learn.Gathering.{is_allowed, IsPlainObservation}
use skimasque.Policy.Learn.Exact.{Observed, suggest_policy-evaluate_policy}
use skimasque.Policy.Destination.RoundTrip.{IsPlain, parse-show}
use skimasque.Policy.Destination.Pattern.{parse_spec-show_matches}
use skimasque.Policy.Destination.PatternBounds.{IsSpec, parse_spec_bounds}

abbrev db : Destination
db = record { host = name (codes "db"); port = 5432 }

db-IsPlain : IsPlain db
unfolding parse_ip
db-IsPlain =
    (((λ e. absurd (cc (e))), ((refl, refl), ((refl, refl), tt)), refl), (omega arith, omega arith))

parse-show_example : parse (show db) ≡ ok db
parse-show_example = parse-show db db-IsPlain

abbrev written : DestinationSpec
written = record { host = exact (codes "db"); port = exact_port 5432; raw = codes "db:5432" }

parse_spec-show_matches_example :
    (s : DestinationSpec) × (parse_spec (show db) ≡ ok s)
    × (s.raw ≡ show db)
    × ((spec_matches s db ≡ true) ↔ (db ≡ db))
parse_spec-show_matches_example = parse_spec-show_matches db db db-IsPlain

-- White space around the text, letters in upper case and a plus sign in front of the port.
loose : parse (codes " DB:+5432 ") ≡ ok db
unfolding parse trim parse_host_literal split_host_port split_after split_plain name_or_ip
    unbracketed parse_ip
loose = refl

abbrev block_spec : DestinationSpec
block_spec = record { host = cidr (v4 167772160) 8; port = any_port; raw = codes "10.0.0.0/8" }

block_parsed : parse_spec (codes "10.0.0.0/8") ≡ ok block_spec
unfolding parse_spec cidr_or_host parse_cidr trim parse_ip
block_parsed = refl

parse_spec_bounds_example : IsSpec (codes "10.0.0.0/8") block_spec
parse_spec_bounds_example = parse_spec_bounds (codes "10.0.0.0/8") block_spec block_parsed

-- Port 0, a range that runs backwards, and an IPv6 literal without brackets.
port_zero : parse (codes "db:0") ≡ err (bad_port (codes "0"))
unfolding parse trim split_host_port split_after split_plain
port_zero = refl

backwards : parse_spec (codes "db:9-8") ≡ err (bad_port (codes "9-8"))
unfolding parse_spec cidr_or_host parse_host_spec split_spec split_host_port split_after split_plain
    parse_port_pattern port_or_range parse_range trim
backwards = refl

no_brackets : parse (codes "2001:db8::1") ≡ err (missing_port (codes "2001:db8::1"))
unfolding parse trim split_host_port split_after split_plain
no_brackets = refl

-- The host of this pattern is empty once its brackets are gone.
empty_brackets :
    parse_spec (codes "[]") ≡ ok (record { host = exact []; port = any_port; raw = codes "[]" })
unfolding parse_spec cidr_or_host parse_host_spec split_spec split_host_port split_after
    split_bracketed parse_host_pattern wildcard_or_literal address_or_literal literal_pattern
    parse_host_literal name_or_ip unbracketed parse_ip trim
empty_brackets = refl

abbrev seen : Observation
seen = record {
  application = codes "psql";
  transport = some tcp;
  destination = codes " DB:+5432 ";
  count = 3;
}

abbrev nobody : WorkloadIdentity
nobody = record {
  organization = none;
  repository = none;
  workflow = none;
  git_ref = none;
  environment = none;
  actor = none;
  kind = none;
  run_id = none;
  runtime = none;
  sid = none;
}

abbrev ask : RequestContext
ask = record {
  workload = nobody;
  application = codes "psql";
  transport = tcp;
  destination = db;
  requested_policy = none;
}

abbrev Parsed : Type 0
Parsed = Result ParseDestinationError Destination

abbrev parsed : Destination → Parsed
parsed d = ok d

destination_of : (a b : Destination) → parsed a ≡ parsed b → a ≡ b
destination_of a b h = cc

seen-IsPlainObservation : IsPlainObservation seen
seen-IsPlainObservation d e =
    let same : db ≡ d = destination_of db d (sym loose ∙ e) in subst IsPlain same db-IsPlain

suggest_policy-evaluate_policy_example :
    (s : Suggestion) × (suggest_policy (codes "draft") nobody (seen ∷ []) ≡ some s)
    × ((is_allowed (evaluate_policy s.policy ask) ≡ true) ↔ Some (Observed ask) (seen ∷ []))
suggest_policy-evaluate_policy_example =
    suggest_policy-evaluate_policy (codes "draft") nobody (seen ∷ []) ask
      (seen-IsPlainObservation, tt)

-- `1h30m` is ninety minutes.
parse_duration-spell_example : parse_duration (codes "1h30m") ≡ some (ok (duration 5400 0))
parse_duration-spell_example =
    parse_duration-spell 1 hours ((30, minutes) ∷ []) (omega arith, (omega arith, tt))
