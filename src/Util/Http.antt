-- ===== src/Util/Http.antt =====
-- internal/edgecenter/http_instrumentation.go: the metrics of a request.
pub mod Paths
use edgecenter_ccm.Prelude.{
  ℕ, zero, suc, Str, Option, none, some, Bool, List, [], ◌∷◌, ◌++◌, codes, decimal, split, ◌==◌,
  nat_eq, str_eq, if◌then◌else◌, ℤ, pos, negsuc, Err, Exec, Outcome, ok, err, panic,
}

unfoldable pub join : List Str → Str
join [] = []
join (p ∷ []) = p
join (p ∷ q ∷ parts) = p ++ (b'/' ∷ join (q ∷ parts))

-- The loop over the parts, with the places that are left: empty parts are passed over.
unfoldable pub take_parts : ℕ → List Str → List Str
take_parts zero parts = []
take_parts (suc n) [] = []
take_parts (suc n) ([] ∷ parts) = take_parts (suc n) parts
take_parts (suc n) ((c ∷ part) ∷ parts) = (c ∷ part) ∷ take_parts n parts

abbrev pub rooted : List Str → Str
rooted [] = codes "/"
rooted (p ∷ parts) = b'/' ∷ join (p ∷ parts)

unfoldable pub limit_path_depth : Str → ℤ → Str
unfolding join take_parts
limit_path_depth path (negsuc n) = codes "/"
limit_path_depth path (pos zero) = codes "/"
limit_path_depth path (pos (suc n)) = rooted (take_parts (suc n) (split b'/' path))

-- sanitizePath: the three replacements by regular expressions are an argument.
unfoldable pub sanitize_path : (Str → Str) → Str → Str
sanitize_path mask path = limit_path_depth (mask path) (pos 6)

-- What errors.Is and errors.As find in a transport error: context.DeadlineExceeded, a net.Error and
-- whether it is a timeout, and a *net.DNSError
pub record TransportError : Type 0 where
  pub is_deadline : Bool
  pub net_error : Option Bool
  pub is_dns : Bool

abbrev net_reason : Bool → Str
net_reason timeout = if timeout then codes "timeout" else codes "network_error"

unfoldable pub classify_transport_error : TransportError → Str
classify_transport_error e =
    if e.is_deadline then codes "deadline_exceeded" else by_kind e.net_error
  where
    by_kind : Option Bool → Str
    by_kind (some timeout) = net_reason timeout
    by_kind none = if e.is_dns then codes "dns_error" else codes "unknown"

-- The counters by their labels, one entry for each increment, the latest first
pub record Metrics : Type 0 where
  -- the method, the path and the reason
  pub request_errors : List (Str × Str × Str)
  -- the method, the path and the status code or "error"; a duration is observed with the same labels
  pub requests : List (Str × Str × Str)
  pub durations : List (Str × Str × Str)

abbrev count : Str × Str × Str → Metrics → Metrics
count labels m = record m { requests = labels ∷ m.requests; durations = labels ∷ m.durations }

module _ {Response : Type 0} (status_code : Response → ℕ) (kind : Err → TransportError)
    (mask : Str → Str) where
  observed : Str → Str → Outcome Response → Metrics → Metrics
  unfolding sanitize_path classify_transport_error
  observed method path (ok resp) m = count (method, path, decimal (status_code resp)) m
  observed method path (err e) m =
      count (method, path, codes "error")
        (record m {
          request_errors = (method, path, classify_transport_error (kind e)) ∷ m.request_errors;
        })
  observed method path panic m = m

  -- RoundTrip of instrumentedRoundTripper
  unfoldable pub round_trip :
      {State : Type 0} → Str → Str → Exec State Response → Exec (Metrics × State) Response
  unfolding observed
  round_trip method url_path next (m, s) =
      let (r, t) = next s in (r, (observed method (sanitize_path mask url_path) r m, t))
