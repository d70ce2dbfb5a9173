-- ===== src/Util/SourceRanges.antt =====
-- internal/api/v1/service/util.go: the source ranges of a Service.
use edgecenter_ccm.Prelude.{
  Str, Option, none, some, Bool, List, [], ◌∷◌, any, codes, lookup, ◌==◌, str_eq, trim_space, split,
  Outcome, ok, err, quote, failure,
}
use edgecenter_ccm.Cloud.Types.{Service}
use edgecenter_ccm.Util.IpNets.{IpNets, parse_ip_nets, string_slice}

unfoldable pub is_allow_all : IpNets → Bool
unfolding string_slice
is_allow_all ipnets = any (λ s. s == codes "0.0.0.0/0") (string_slice ipnets)

abbrev or_empty : Option Str → Str
or_empty none = []
or_empty (some s) = s

abbrev or_default : Str → Str
or_default [] = codes "0.0.0.0/0"
or_default (c ∷ s) = c ∷ s

abbrev annotated_ranges : Service → List Str
annotated_ranges svc = split b',' (
    or_default (
      trim_space (
        or_empty (
          lookup (codes "service.beta.kubernetes.io/load-balancer-source-ranges")
            svc.annotations))))

abbrev or_error : Option IpNets → Outcome IpNets
or_error none =
    err
      (quote "%v is not valid. Expecting a list of IP ranges: " (failure "invalid CIDR address: "))
or_error (some nets) = ok nets

abbrev specs : List Str → Service → List Str
specs [] svc = annotated_ranges svc
specs (r ∷ rs) svc = r ∷ rs

unfoldable pub get_load_balancer_source_ranges : (Str → Option Str) → Service → Outcome IpNets
unfolding parse_ip_nets
get_load_balancer_source_ranges parse_cidr svc =
    or_error (parse_ip_nets parse_cidr (specs svc.source_ranges svc) [])
