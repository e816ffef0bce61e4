-- ===== src/Errors/Laws.antt =====
-- The identity of wrapped errors (internal/errors/errors.go).
use k8s_postgresql_operator.Prelude.{String, ◌≡◌, refl, ◌≢◌, false, ◌||◌, some, arith, eq_iff}
use k8s_postgresql_operator.Errors.{
  Error, Structured, as_error, sentinel, with_op, is_nil, wrap, wrapf, same_kind, errors_is,
}

-- What Wrap makes of a base and an error that is not nil, under any operation, is recognised by
-- errors.Is exactly as the base or as the error that it wraps.
pub errors_is-wrap :
    (base : Structured) (e : Error) (op : String) (t : Structured)
    → is_nil e ≡ false
    → (x : Structured) × (wrap (some base) e ≡ some x)
      × (errors_is (as_error (with_op op x)) (sentinel t)
          ≡ (same_kind base.code base.message t || errors_is e (sentinel t)))
unfolding wrap with_op errors_is
errors_is-wrap base e op t h = (record base { err = e }, ground arith, refl)

-- What Wrapf makes of a base and an error that is not nil is not recognised as the base, if the
-- new message is another one and the wrapped error is not recognised as the base.
pub errors_is-wrapf :
    (base : Structured) (e : Error) (message op : String)
    → is_nil e ≡ false
    → message ≢ base.message
    → errors_is e (sentinel base) ≡ false
    → (x : Structured) × (wrapf (some base) e message ≡ some x)
      × (errors_is (as_error (with_op op x)) (sentinel base) ≡ false)
unfolding wrapf with_op errors_is
errors_is-wrapf base e message op h differs other = (
  record base { message = message; err = e },
  ground arith,
  ground (arith, eq_iff message base.message),
)
