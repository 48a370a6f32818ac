-- ===== src/Http/Wire/Binding.antt =====
-- The wrapper of api/gen/server.gen.go that binds the parameters of a request before the strict
-- handler runs. The binders of package runtime and the parsed query are a parameter, `Binders`.
use room_booking.Base.{ℤ, List, [], ◌∷◌, Option, GoString, codes, ◌++◌, text_eq, not, if◌then◌else◌}
use room_booking.Domain.Time.{Time}
use room_booking.Domain.Entities.{Uuid}
use room_booking.Http.Api as Api
use room_booking.Http.Api.{Reply, Served}
use room_booking.Http.Handlers.{reply}

-- The value of a parameter, or the text of the binder's error.
pub data Bound (A : Type 0) : Type 0 where
  bound : A → Bound A
  unbound : GoString → Bound A

-- `r.URL.Query().Get`, and the calls of BindQueryParameterWithOptions and
-- BindStyledParameterWithOptions with the options of the generated code: the name of the
-- parameter and the raw query or value.
pub record Binders : Type 0 where
  pub query_get : GoString → GoString → GoString
  pub bind_integer : GoString → GoString → Bound (Option ℤ)
  pub bind_date : GoString → GoString → Bound Time
  pub bind_uuid : GoString → GoString → Bound Uuid

-- `InvalidParamFormatError.Error`, of the name and the text of the error below.
abbrev pub invalid_format : GoString → GoString → GoString
invalid_format name text = codes "Invalid format for parameter " ++ (name ++ (codes ": " ++ text))

-- `RequiredParamError.Error`
abbrev pub required_param : GoString → GoString
required_param name = codes "Query argument " ++ (name ++ codes " is required, but not found")

-- The default ErrorHandlerFunc: `http.Error(w, err.Error(), http.StatusBadRequest)`.
abbrev pub param_error : GoString → Reply
param_error message = record { status = 400; body = Api.plain_text (message ++ codes "\n") }

-- `if err != nil { siw.ErrorHandlerFunc(w, r, &InvalidParamFormatError{...}); return }`
abbrev pub on_bound : {A : Type 0} → GoString → (A → Served) → Bound A → Served
on_bound name k (bound a) = k a
on_bound name k (unbound text) = reply (param_error (invalid_format name text))

-- `for _, middleware := range siw.HandlerMiddlewares { handler = middleware(handler) }`
unfoldable pub through : List (Served → Served) → Served → Served
through [] handler = handler
through (m ∷ ms) handler = through ms (m handler)

-- The methods of ServerInterfaceWrapper, over its HandlerMiddlewares; `next` is the method of the
-- strict handler.
module _ (middlewares : List (Served → Served)) where
  abbrev pub wrap_info : Served → Served
  wrap_info next = through middlewares next

  abbrev pub wrap_bookings_create : Served → Served
  wrap_bookings_create next = through middlewares next

  abbrev pub wrap_bookings_my : Served → Served
  wrap_bookings_my next = through middlewares next

  abbrev pub wrap_dummy_login : Served → Served
  wrap_dummy_login next = through middlewares next

  abbrev pub wrap_login : Served → Served
  wrap_login next = through middlewares next

  abbrev pub wrap_register : Served → Served
  wrap_register next = through middlewares next

  abbrev pub wrap_rooms_create : Served → Served
  wrap_rooms_create next = through middlewares next

  abbrev pub wrap_rooms_list : Served → Served
  wrap_rooms_list next = through middlewares next

  module _ (b : Binders) where
    unfoldable pub wrap_bookings_list : (Option ℤ → Option ℤ → Served) → GoString → Served
    wrap_bookings_list next query =
        on_bound (codes "page")
          (λ page.
            on_bound (codes "pageSize") (λ page_size. through middlewares (next page page_size))
              (b.bind_integer (codes "pageSize") query))
          (b.bind_integer (codes "page") query)

    unfoldable pub wrap_bookings_cancel : (Uuid → Served) → GoString → Served
    wrap_bookings_cancel next id =
        on_bound (codes "bookingId") (λ booking. through middlewares (next booking))
          (b.bind_uuid (codes "bookingId") id)

    unfoldable pub wrap_schedule_create : (Uuid → Served) → GoString → Served
    wrap_schedule_create next room_text =
        on_bound (codes "roomId") (λ room. through middlewares (next room))
          (b.bind_uuid (codes "roomId") room_text)

    unfoldable pub wrap_slots_list : (Uuid → Time → Served) → GoString → GoString → Served
    wrap_slots_list next room_text query =
        on_bound (codes "roomId")
          (λ room.
            if not (text_eq (b.query_get query (codes "date")) (codes ""))
            then on_bound (codes "date") (λ date. through middlewares (next room date))
                (b.bind_date (codes "date") query)
            else reply (param_error (required_param (codes "date"))))
          (b.bind_uuid (codes "roomId") room_text)
