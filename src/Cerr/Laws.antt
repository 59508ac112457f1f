-- ===== src/Cerr/Laws.antt =====
-- Registering a code, and finding a CodeError along a chain of errors (cerr/cerr.go).
use opendevops_codo_golang_s.Go.Dict.{lookup, insert, int_beq, int_eq, lookup-insert}
use opendevops_codo_golang_s.Go.Number.{ℤ, pos, negsuc}
use opendevops_codo_golang_s.Cerr.Errors.{from, as_code_error, CodeError, GoError, as_error, wrap}
use opendevops_codo_golang_s.Common.{
  List, Bytes, Option-cases, ◌∷◌, ◌≡◌, [], if◌then◌else◌, inl, none, some, arith, false, refl, ◌≢◌,
  inr, true, Option,
}
use opendevops_codo_golang_s.Cerr.Code.{trans_map, ErrCode, http_status_code_map}
use opendevops_codo_golang_s.Cerr.Registry.{
  Registry, register_code, RegisterCodeOptions, code_string, initial, apply_all, as_http_code,
  default_register_code_options,
}

register_fresh :
    (r : Registry) (code : ErrCode) (msg : Bytes)
    (opts : List (RegisterCodeOptions → RegisterCodeOptions))
    → lookup code r.trans ≡ none
    → register_code r code msg opts ≡ (
      record {
        trans = insert code msg r.trans;
        http = insert code (apply_all opts default_register_code_options).http_code r.http;
      },
      true,
    )
unfolding register_code
register_fresh r code msg opts h = ground (arith, h)

register_known :
    (r : Registry) (code : ErrCode) (msg v : Bytes)
    (opts : List (RegisterCodeOptions → RegisterCodeOptions))
    → lookup code r.trans ≡ some v
    → register_code r code msg opts ≡ (r, false)
unfolding register_code
register_known r code msg v opts h = ground (arith, h)

-- One of two values, by whether a code is new, that is, whether it had no message.
abbrev pub if_new : {A : Type 0} → Option Bytes → A → A → A
if_new none new old = new
if_new (some v) new old = old

-- RegisterCode succeeds exactly for a code that has no message yet, and then sets the message and the HTTP
-- status of that code alone; a code that has a message is refused, and then no code's message and no code's
-- HTTP status changes.
pub code_string-register_code :
    (r : Registry) (code j : ErrCode) (msg : Bytes)
    (opts : List (RegisterCodeOptions → RegisterCodeOptions))
    → ((register_code r code msg opts).1 ≡ if_new (lookup code r.trans) true false)
      × (code_string (register_code r code msg opts).0 j
          ≡ if_new
              (lookup code r.trans)
              (if int_beq code j then msg else code_string r j)
              (code_string r j))
      × (as_http_code (register_code r code msg opts).0 j
          ≡ if_new
              (lookup code r.trans)
              (if int_beq code j
                then (apply_all opts default_register_code_options).http_code
                else as_http_code r j)
              (as_http_code r j))
code_string-register_code r code j msg opts = elim (Option-cases (lookup code r.trans)) [
  | inl fresh ↦
      rw (register_fresh r code msg opts fresh, fresh)
        (unfold code_string as_http_code in
          (
            refl,
            ground (arith, lookup-insert r.trans code j msg),
            ground (
              arith,
              lookup-insert r.http code j (apply_all opts default_register_code_options).http_code,
            ),
          ))
  | inr (v, known) ↦ rw (register_known r code msg v opts known, known) (refl, refl, refl)
]

-- Every code that has an HTTP status has a message.
record IsConsistent (r : Registry) : Type 0 where
  pub at : (code : ErrCode) (s : ℤ) → lookup code r.http ≡ some s → lookup code r.trans ≢ none

-- RegisterCode keeps that every code with an HTTP status has a message: so a registration that
-- succeeds replaces no status.
register_code-IsConsistent :
    (r : Registry) (code : ErrCode) (msg : Bytes)
    (opts : List (RegisterCodeOptions → RegisterCodeOptions))
    → IsConsistent r
    → IsConsistent (register_code r code msg opts).0
register_code-IsConsistent r code msg opts h = elim (Option-cases (lookup code r.trans)) [
  | inl fresh ↦ rw (register_fresh r code msg opts fresh) (record {
    at = λ j s e. ground (
      arith,
      lookup-insert r.trans code j msg,
      lookup-insert r.http code j (apply_all opts default_register_code_options).http_code,
      h.at j s,
    );
  })
  | inr (v, known) ↦ rw (register_known r code msg v opts known) h
]

initial_at :
    (code : ErrCode) (s : ℤ) → lookup code initial.http ≡ some s → lookup code initial.trans ≢ none
unfolding trans_map http_status_code_map lookup
initial_at (pos n) s h = ground arith
initial_at (negsuc n) s h = ground arith

-- The tables that the package declares are consistent.
initial-IsConsistent : IsConsistent initial
initial-IsConsistent = record { at = initial_at }

-- A CodeError below any number of %w messages.
abbrev wrap_all : List Bytes → GoError → GoError
wrap_all [] e = e
wrap_all (m ∷ ms) e = wrap m (wrap_all ms e)

as_code_error-wrap_all :
    (msgs : List Bytes) (x : CodeError) → as_code_error (wrap_all msgs (as_error x)) ≡ some x
unfolding as_code_error
as_code_error-wrap_all [] x = refl
as_code_error-wrap_all (m ∷ msgs) x = as_code_error-wrap_all msgs x

-- From finds a CodeError through any number of wrappings, and gives it back as it was.
from-wrap_all : (msgs : List Bytes) (x : CodeError) → from (wrap_all msgs (as_error x)) ≡ x
unfolding from
from-wrap_all msgs x = ground (arith, as_code_error-wrap_all msgs x)
