-- ===== src/Auth/Service/Requests.antt =====
-- The use cases as one kind of step: what they do to the tables is a run of statements.
use jiuyue.Base.{text_key, nat_key, String, List, [], ◌∷◌}
use jiuyue.Contract.{
  RegisterRequest, LoginRequest, ForgotPasswordRequest, ResendVerificationRequest,
  ResetPasswordRequest,
}
use jiuyue.Auth.Store.Statements.{Runs, here, Runs-trans}
use jiuyue.Auth.Service.{AuthService, World, Supply, SessionContext}
use jiuyue.Auth.Service.SignIn.{register, login, refresh, logout}
use jiuyue.Auth.Service.Recovery.{
  verify_email, resend_verification, forgot_password, reset_password,
}
use jiuyue.Auth.Service.Runs.SignIn.{register-Runs, login-Runs, refresh-Runs, logout-Runs}
use jiuyue.Auth.Service.Runs.Recovery.{
  verify_email-Runs, resend_verification-Runs, forgot_password-Runs, reset_password-Runs,
}

pub data Request : Type 0 where
  registers : Supply → RegisterRequest → SessionContext → Request
  logs_in : Supply → LoginRequest → SessionContext → Request
  refreshes : Supply → String → Request
  logs_out : Supply → String → Request
  verifies_email : Supply → String → Request
  resends : Supply → ResendVerificationRequest → SessionContext → Request
  forgets : Supply → ForgotPasswordRequest → SessionContext → Request
  resets : Supply → ResetPasswordRequest → SessionContext → Request

unfoldable pub step : AuthService → World → Request → World
unfolding register login refresh logout verify_email resend_verification forgot_password
    reset_password
step s w (registers given request context) = (register s given w request context).0
step s w (logs_in given request context) = (login (λ db. db) s given w request context).0
step s w (refreshes given token) = (refresh s given w token).0
step s w (logs_out given token) = (logout s given w token).0
step s w (verifies_email given token) = (verify_email s given w token).0
step s w (resends given request context) = (resend_verification s given w request context).0
step s w (forgets given request context) = (forgot_password s given w request context).0
step s w (resets given request context) = (reset_password s given w request context).0

-- Whatever a request asks and however it is answered, its effect on the tables is a run of the
-- module's statements.
step-Runs : (s : AuthService) (w : World) (r : Request) → Runs w.db (step s w r).db
unfolding step
step-Runs s w (registers given request context) = register-Runs s given w request context
step-Runs s w (logs_in given request context) = login-Runs s given w request context
step-Runs s w (refreshes given token) = refresh-Runs s given w token
step-Runs s w (logs_out given token) = logout-Runs s given w token
step-Runs s w (verifies_email given token) = verify_email-Runs s given w token
step-Runs s w (resends given request context) = resend_verification-Runs s given w request context
step-Runs s w (forgets given request context) = forgot_password-Runs s given w request context
step-Runs s w (resets given request context) = reset_password-Runs s given w request context

unfoldable pub run : AuthService → World → List Request → World
unfolding step
run s w [] = w
run s w (r ∷ rs) = run s (step s w r) rs

pub run-Runs : (s : AuthService) (w : World) (rs : List Request) → Runs w.db (run s w rs).db
unfolding run
run-Runs s w [] = here
run-Runs s w (r ∷ rs) = Runs-trans (step-Runs s w r) (run-Runs s (step s w r) rs)
