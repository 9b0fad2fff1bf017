-- ===== src/Exporter/Http/Requests.antt =====
-- The request line that tools/metrics_exporter.cpp takes apart.
use mathlib.Core.Path.{ap₂}
use market_data_ingress.Base.{
  ℕ, ◌+◌, ◌-◌, ◌≤◌, ◌≡◌, refl, ap, false, ◌==◌, Option, none, some, [], ◌∷◌, ◌++◌, Bytes,
  All-append, length, take, drop_next, take-length-append, take_all, arith,
}
use market_data_ingress.Exporter.Scan.{find}
use market_data_ingress.Exporter.Scan.Find.{Lacks, find_first, find_from_first, find_absent}
use market_data_ingress.Exporter.Http.{before, request_target, parse_request}

before_first :
    (x : ℕ) (needle text rest : Bytes)
    → Lacks x text
    → before (text ++ ((x ∷ needle) ++ rest)) (x ∷ needle) ≡ text
unfolding before
before_first x needle text rest h =
    rw (find_first x needle text rest h, before) (take-length-append text ((x ∷ needle) ++ rest))

before_absent : (x : ℕ) (needle text : Bytes) → Lacks x text → before text (x ∷ needle) ≡ text
unfolding before
before_absent x needle text h = rw (find_absent x needle text h, before)

-- A path, and the query that may follow it.
abbrev pub with_query : Bytes → Option Bytes → Bytes
with_query path none = path
with_query path (some query) = path ++ (b'?' ∷ query)

abbrev LacksIn : ℕ → Option Bytes → Type 0
LacksIn x none = Unit
LacksIn x (some text) = Lacks x text

-- A method, a path, a query and a version that form a request line.
pub record IsRequestLine (method path : Bytes) (query : Option Bytes) (version : Bytes)
    : Type 0 where
  pub method_space : Lacks b' ' method
  pub method_return : Lacks b'\r' method
  pub path_space : Lacks b' ' path
  pub path_return : Lacks b'\r' path
  pub path_query : Lacks b'?' path
  pub query_space : LacksIn b' ' query
  pub query_return : LacksIn b'\r' query
  pub version_return : Lacks b'\r' version

abbrev pub request_line : Bytes → Bytes → Option Bytes → Bytes → Bytes
request_line method path query version =
    method ++ (b' ' ∷ (with_query path query ++ (b' ' ∷ version)))

request_target_lem :
    (method target version : Bytes)
    → Lacks b' ' method
    → Lacks b' ' target
    → request_target (method ++ (b' ' ∷ (target ++ (b' ' ∷ version)))) ≡ some (method, target)
unfolding request_target
request_target_lem method target version m t =
    let behind = target ++ (b' ' ∷ version) in
    let line = method ++ (b' ' ∷ behind) in
    let first : find line (b' ' ∷ []) 0 ≡ some (length method) =
      find_first b' ' [] method behind m in
    let end = length method + 1 + length target in
    let second : find line (b' ' ∷ []) (length method + 1) ≡ some end =
      unfold find in
      rw (drop_next method b' ' behind)
        (find_from_first b' ' [] target version (length method + 1) t) in
    let span : end - length method - 1 ≡ length target = omega arith in
    rw (first, request_target)
      (rw second (
        ap some (
          ap₂ (λ a b. (a, b)) (take-length-append method (b' ' ∷ behind))
            (rw (span, drop_next method b' ' behind)
              (take-length-append target (b' ' ∷ version))))))

Lacks-with_query :
    (x : ℕ) (path : Bytes) (query : Option Bytes)
    → (x == b'?') ≡ false
    → Lacks x path
    → LacksIn x query
    → Lacks x (with_query path query)
Lacks-with_query x path none e p q = p
Lacks-with_query x path (some query) e p q = All-append _ path (b'?' ∷ query) p (e, q)

before-with_query :
    (path : Bytes) (query : Option Bytes)
    → Lacks b'?' path
    → before (with_query path query) (b'?' ∷ []) ≡ path
before-with_query path none p = before_absent b'?' [] path p
before-with_query path (some query) p = before_first b'?' [] path query p

-- A request whose first line is well formed, and which fits the buffer, is read as its method and its
-- path: the query, the version and what follows the line are left out.
pub parse_request_lem :
    (method path : Bytes) (query : Option Bytes) (version headers : Bytes)
    → IsRequestLine method path query version
    → length (request_line method path query version ++ (b'\r' ∷ b'\n' ∷ headers)) ≤ 8191
    → parse_request (request_line method path query version ++ (b'\r' ∷ b'\n' ∷ headers))
      ≡ some (method, path)
unfolding parse_request
parse_request_lem method path query version headers h fits =
    let line = request_line method path query version in
    let target = with_query path query in
    let lacks_return : Lacks b'\r' line = All-append _ method _ h.method_return (
      refl,
      All-append _ target _ (Lacks-with_query b'\r' path query refl h.path_return h.query_return)
          (refl, h.version_return),
    ) in
    let lacks_space = Lacks-with_query b' ' path query refl h.path_space h.query_space in
    let whole = line ++ (b'\r' ∷ b'\n' ∷ headers) in
    let first : before (take 8191 whole) (b'\r' ∷ b'\n' ∷ []) ≡ line =
      rw (take_all 8191 whole fits) (before_first b'\r' (b'\n' ∷ []) line headers lacks_return) in
    let parts = request_target_lem method target version h.method_space lacks_space in
    rw (first, parse_request) (rw parts (rw (before-with_query path query h.path_query)))
