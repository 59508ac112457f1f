-- ===== src/Xhttp/Client.antt =====
-- NewClient, its options and commonLabels of client/xhttp/client.go. The providers, the instruments that they
-- make and the fields of http.Client are parameters.
use opendevops_codo_golang_s.Go.Number.{pos, ℤ}
use opendevops_codo_golang_s.Common.{
  ◌∷◌, Bytes, List, Option, some, ◌⊎◌, foldl, inl, inr, none, utf8, ◌≡◌, [], ◌≢◌, if◌then◌else◌, ℕ,
  Bool, same, true,
}

-- Client: the timeout of http.Client in nanoseconds, its transport, check of redirects and jar, the two
-- providers, and the two instruments.
record Client (X P I : Type 0) : Type 0 where
  pub timeout : ℤ
  pub transport : Option X
  pub check_redirect : Option X
  pub jar : Option X
  pub tracer_provider : P
  pub meter_provider : P
  pub requests : Option I
  pub seconds : Option I

-- DefaultSecondsHistogram and DefaultRequestsCounter on the meter "codo/xhttp" of a provider, by the names of
-- the instruments.
record Meters (P I : Type 0) : Type 0 where
  pub histogram : P → Bytes → I ⊎ Bytes
  pub counter : P → Bytes → I ⊎ Bytes

-- The instrument that is there, or the one that is made.
abbrev present : {I : Type 0} → Option I → I ⊎ Bytes → I ⊎ Bytes
present (some i) made = inl i
present none made = made

module _ {X P I : Type 0} where
  unfoldable with_trace_provider : P → Client X P I → Client X P I
  with_trace_provider tr client = record client { tracer_provider = tr }

  unfoldable with_meter_provider : P → Client X P I → Client X P I
  with_meter_provider mr client = record client { meter_provider = mr }

  unfoldable with_transport : X → Client X P I → Client X P I
  with_transport x client = record client { transport = some x }

  unfoldable with_check_redirect : X → Client X P I → Client X P I
  with_check_redirect x client = record client { check_redirect = some x }

  unfoldable with_timeout : ℤ → Client X P I → Client X P I
  with_timeout t client = record client { timeout = t }

  unfoldable with_jar : X → Client X P I → Client X P I
  with_jar x client = record client { jar = some x }

  -- The client before the options: `tracer` and `meter` are the global providers.
  unfoldable first_client : (tracer meter : P) → Client X P I
  first_client tracer meter = record {
    timeout = pos 10_000_000_000;
    transport = none;
    check_redirect = none;
    jar = none;
    tracer_provider = tracer;
    meter_provider = meter;
    requests = none;
    seconds = none;
  }

  abbrev with_counter : Client X P I → I ⊎ Bytes → Client X P I ⊎ Bytes
  with_counter client (inr e) = inr e
  with_counter client (inl i) = inl (record client { requests = some i })

  abbrev with_instruments : Meters P I → Client X P I → I ⊎ Bytes → Client X P I ⊎ Bytes
  with_instruments lib client (inr e) = inr e
  with_instruments lib client (inl i) =
      with_counter (record client { seconds = some i })
        (present client.requests
          (lib.counter client.meter_provider (utf8 "client_requests_code_total")))

  -- NewClient
  unfoldable new_client :
      Meters P I → (tracer meter : P) → List (Client X P I → Client X P I) → Client X P I ⊎ Bytes
  unfolding first_client
  new_client lib tracer meter opts =
      let client = foldl (λ c o. o c) (first_client tracer meter) opts in
      with_instruments lib client (
        present client.seconds
          (lib.histogram client.meter_provider (utf8 "client_requests_seconds_bucket")))

  -- A client that NewClient returns has both instruments, so that Do never meets a nil one.
  new_client-instruments :
      (lib : Meters P I) (tracer meter : P) (opts : List (Client X P I → Client X P I))
      (client : Client X P I)
      → new_client lib tracer meter opts ≡ inl client
      → (client.requests ≢ none) × (client.seconds ≢ none)
  unfolding new_client
  new_client-instruments lib tracer meter opts client h =
      let c = foldl (λ c o. o c) (first_client tracer meter) opts in
      made c
        (present c.seconds (lib.histogram c.meter_provider (utf8 "client_requests_seconds_bucket")))
        h
    where
      counted :
          (c : Client X P I) (i : I) (made : I ⊎ Bytes)
          → with_counter (record c { seconds = some i }) made ≡ inl client
          → (client.requests ≢ none) × (client.seconds ≢ none)
      counted c i (inr e) h = absurd cc
      counted c i (inl j) h = ((λ e. cc), (λ e. cc))

      made :
          (c : Client X P I) (i : I ⊎ Bytes)
          → with_instruments lib c i ≡ inl client
          → (client.requests ≢ none) × (client.seconds ≢ none)
      made c (inr e) h = absurd cc
      made c (inl i) h =
          counted c i
            (present c.requests (lib.counter c.meter_provider (utf8 "client_requests_code_total")))
            h

-- commonLabels: the keys and values; the last key is semconv.HostNameKey.
unfoldable common_labels : (host_name_key hostname intranet_ip : Bytes) → List (Bytes × Bytes)
common_labels host_name_key hostname intranet_ip =
    (utf8 "hostname", hostname) ∷ (utf8 "ip.intranet", intranet_ip) ∷ (host_name_key, hostname) ∷ []

-- metricsdk.Instrument: the fields that are read.
record Instrument : Type 0 where
  name : Bytes
  description : Bytes
  unit : Bytes

-- metricsdk.Stream with an explicit histogram; the boundaries are in thousandths.
record Stream : Type 0 where
  name : Bytes
  description : Bytes
  unit : Bytes
  boundaries : List ℕ
  no_min_max : Bool

-- DefaultSecondsHistogramView: `none` where the view does not match.
unfoldable default_seconds_histogram_view : (histogram_name : Bytes) → Instrument → Option Stream
default_seconds_histogram_view histogram_name i =
    if same i.name histogram_name
    then some (record {
      name = i.name;
      description = i.description;
      unit = i.unit;
      boundaries = 5 ∷ 10 ∷ 25 ∷ 50 ∷ 100 ∷ 250 ∷ 500 ∷ 1000 ∷ [];
      no_min_max = true;
    })
    else none
