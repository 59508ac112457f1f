-- ===== src/Examples/Clients.antt =====
-- Tests of the models of client/xvm, client/xhttp and the websocket transport. Floats are numbers.
use opendevops_codo_golang_s.Websocket.Loop.{IsVetted, read_loop-IsVetted}
use opendevops_codo_golang_s.Websocket.{
  read_loop, Applied, read_round, Incoming, applied, done, read_error, message, replied, left,
}
use opendevops_codo_golang_s.Websocket.Chain.{Handler}
use opendevops_codo_golang_s.Xhttp.{ProxyLib, str_limit}
use opendevops_codo_golang_s.Xvm.Query.{QueryResult, Response}
use opendevops_codo_golang_s.Go.Number.{ℤ, pos}
use opendevops_codo_golang_s.Common.{
  All, Bytes, List, length, ℕ, Bool, Option, false, inl, inr, some, utf8, ◌+◌, ◌∷◌, ◌≡◌, ◌⊎◌, [],
  if◌then◌else◌, none, refl, true, ◌-◌, ltb,
}
use opendevops_codo_golang_s.Go.Dict.{index, lookup}
use opendevops_codo_golang_s.Xvm.{
  Labelled, Metric, MetricResult, is_success, match_labels, int64, text,
}

abbrev cpu : Metric ℕ
cpu = record { labels = (utf8 "job", utf8 "cpu") ∷ []; values = []; single = none }

abbrev mem : Metric ℕ
mem = record {
  labels = (utf8 "job", utf8 "mem") ∷ (utf8 "host", utf8 "a") ∷ [];
  values = record { at = int64 (pos 1); sample = text (utf8 "2") } ∷ [];
  single = none;
}

abbrev two_series : MetricResult ℕ
two_series = record {
  status = utf8 "success";
  is_partial = false;
  metrics = record { result_type = utf8 "vector"; result = cpu ∷ mem ∷ [] };
  error = [];
  error_type = [];
}

abbrev wanted : Labelled
wanted = (utf8 "job", utf8 "mem") ∷ []

succeeded : is_success two_series ≡ true
unfolding is_success
succeeded = refl

cpu_unmatched : match_labels cpu.labels wanted ≡ false
unfolding match_labels index lookup
cpu_unmatched = refl

mem_matched : index mem.labels (utf8 "job") ≡ utf8 "mem"
unfolding index lookup
mem_matched = refl

abbrev minus : ℕ → ℕ → ℤ
minus a b = pos (a - b)

abbrev decode_two : Bytes → MetricResult ℕ ⊎ Bytes
decode_two b = inl two_series

abbrev answer : Response
answer = record { status_code = pos 200; body = utf8 "{}" }

abbrev two_out : QueryResult ℕ
two_out = record { is_partial = false; metrics = two_series.metrics }

at_the_limit : str_limit (utf8 "abcd") 4 (utf8 "...") ≡ utf8 "abcd..."
unfolding str_limit
at_the_limit = refl

-- A library that reads nothing as a URL.
abbrev no_urls : ProxyLib Bytes
no_urls = record { parse = λ s. inr (utf8 "bad"); scheme = λ u. [] }

abbrev deny : Handler ℕ
deny n = (n, some (utf8 "denied"))

abbrev count : Handler ℕ → Handler ℕ
count next n = next (n + 1)

abbrev accept : Bytes → Applied
accept b = done

abbrev short_only : Bytes → Option Bytes
short_only b = if ltb (length b) 3 then none else some (utf8 "long")

abbrev script : List (Bool × Incoming)
script = (false, message (utf8 "a")) ∷ (false, read_error) ∷ (false, message (utf8 "abc")) ∷ []

reads :
    (read_loop inl short_only accept script)
    ≡ (applied (utf8 "a") ∷ replied (utf8 "long") ∷ [], left)
unfolding read_loop read_round
reads = refl

read_loop-IsVetted_example :
    All (IsVetted inl short_only accept) (read_loop inl short_only accept script).0
read_loop-IsVetted_example = read_loop-IsVetted inl short_only accept script
