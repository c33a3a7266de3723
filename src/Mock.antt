-- ===== src/Mock.antt =====
-- The callbacks of the mock environment (mock/src): each checks its pointer, and those for messages
-- print what they are given.
pub mod Receivers
use rasta_s.Prelude.{
  ℕ, List, [], ◌∷◌, Option, some, Result, ok, err, out_of_bounds, ◌>>=◌, ◌==◌, if◌then◌else◌, ◌≡◌,
  ◌≢◌, ◌↔◌, refl, ==_ne, arith, true, false, Bool,
}
use rasta_s.Common.Assert.{non_null}
use rasta_s.SafeCom.Types.{StdRet, std_ok}

-- What one call has printed: the identifier, the length and the text.
pub record Printed : Type 0 where
  pub msg_id : ℕ
  pub msg_len : ℕ
  pub text : List ℕ

-- The conversion `%s`: the bytes before the first zero byte, wherever it stands.
unfoldable pub string_at : List ℕ → Result (List ℕ)
string_at [] = err out_of_bounds
string_at (b ∷ rest) =
    let later = string_at rest in if b == 0 then ok [] else (later >>= λ text. ok (b ∷ text))

abbrev pub print_message : ℕ → ℕ → Option (List ℕ) → Result (StdRet × Printed)
print_message msg_id msg_len msg_data = do
  bytes ← non_null msg_data
  text ← string_at bytes
  ok (std_ok, record { msg_id = msg_id; msg_len = msg_len; text = text })

-- `Fec_ReceiveBtp`.
unfoldable pub receive_btp : ℕ → ℕ → Option (List ℕ) → Result (StdRet × Printed)
receive_btp msg_id msg_len msg_data = print_message msg_id msg_len msg_data

-- `OsCom_ReceiveMsg`.
unfoldable pub receive_msg : ℕ → ℕ → Option (List ℕ) → Result (StdRet × Printed)
receive_msg msg_id msg_len msg_data = print_message msg_id msg_len msg_data

-- `IscDispApp_SendSpdu`.
unfoldable pub app_send_spdu : ℕ → ℕ → Option (List ℕ) → Result StdRet
app_send_spdu node_id spdu_len spdu_data = do bytes ← non_null spdu_data; ok std_ok

-- `OsCom_SendSpdu`.
unfoldable pub os_send_spdu : ℕ → ℕ → Option (List ℕ) → Result StdRet
os_send_spdu node_id spdu_len spdu_data = do bytes ← non_null spdu_data; ok std_ok

abbrev pub NoZero : List ℕ → Type 0
NoZero [] = Unit {0}
NoZero (b ∷ rest) = (b ≢ 0) × NoZero rest

string_at-over : (bytes : List ℕ) → NoZero bytes → string_at bytes ≡ err out_of_bounds
unfolding string_at
string_at-over [] h = refl
string_at-over (b ∷ rest) (ne, h) = rw (==_ne b 0 ne) (rw (string_at-over rest h) refl)

-- A string that was not found ran over the end.
over-bind :
    {A : Type 0} (r : Result (List ℕ)) (f : List ℕ → A)
    → (r >>= λ text. ok (f text)) ≡ err out_of_bounds
    → r ≡ err out_of_bounds
over-bind (ok text) f h = cc
over-bind (err fault) f h = cc

over-if :
    (z : Bool) (later : Result (List ℕ))
    → (if z then ok [] else later) ≡ err out_of_bounds
    → (z ≡ false) × (later ≡ err out_of_bounds)
over-if true later h = cc
over-if false later h = (refl, h)

not_zero : (b : ℕ) → (b == 0) ≡ false → b ≢ 0
not_zero b h = ground arith

over-NoZero : (bytes : List ℕ) → string_at bytes ≡ err out_of_bounds → NoZero bytes
unfolding string_at
over-NoZero [] h = tt
over-NoZero (b ∷ rest) h =
    let (ne, later) = over-if (b == 0) (string_at rest >>= λ text. ok (b ∷ text)) h in
    (not_zero b ne, over-NoZero rest (over-bind (string_at rest) (λ text. b ∷ text) later))

-- Given a message, Fec_ReceiveBtp reads past its end exactly when it has no zero byte, whatever
-- the length that is passed with it.
pub receive_btp-over_iff :
    (msg_id msg_len : ℕ) (bytes : List ℕ)
    → (receive_btp msg_id msg_len (some bytes) ≡ err out_of_bounds) ↔ NoZero bytes
unfolding receive_btp
receive_btp-over_iff msg_id msg_len bytes = (
  (λ h. over-NoZero bytes (over-bind (string_at bytes) _ h)),
  (λ h. rw (string_at-over bytes h) refl),
)
