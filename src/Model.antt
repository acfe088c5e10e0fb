-- ===== src/Model.antt =====
-- Package model: the error type, and the data that the components exchange.
pub mod Maps
pub mod Media
pub mod Call
pub mod Resource
pub mod Agent
pub mod Member
pub mod Queue
mod Tests
use call_center.Prelude.{String, Option, none, some}
use call_center.Prelude.Int.{ℤ, pos}

-- model/utils.go, `AppError` and `NewAppError`; the parameters of a message and the request's id
-- are never set by the code that is modelled.
pub record AppError : Type 0 where
  pub id : String
  pub message : String
  pub detailed_error : String
  pub status_code : ℤ
  pub place : String  -- `Where`

unfoldable pub new_app_error : String → String → String → ℤ → AppError
new_app_error place id details status = record {
  id = id;
  message = id;
  detailed_error = details;
  status_code = status;
  place = place;
}
