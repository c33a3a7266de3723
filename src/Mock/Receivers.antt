-- ===== src/Mock/Receivers.antt =====
-- The functions behind the callbacks of the vtables: those of mock/src, which print what they are
-- given, and those of a caller, which are given.
use rasta_s.Prelude.{
  ℕ, List, some, Result, ok, ◌>>=◌, ◌≡◌, refl, Ensures, Ensures-bind, Ensures-any,
}
use rasta_s.Sm.Types.{
  iscdisp_send_spdu, fec_receive_btp, oscom_send_spdu, oscom_receive_msg, user_callback,
}
use rasta_s.SafeCom.Types.{StdRet, Memory, Receiver, Receivers}
use rasta_s.SafeCom.Calls.{LeaveMachines}
use rasta_s.Mock.{Printed, receive_btp, receive_msg, app_send_spdu, os_send_spdu}

-- A callback that prints leaves the memory as it is.
abbrev printing : Result (StdRet × Printed) → Memory → Result (StdRet × Memory)
printing r m = r >>= λ (p : StdRet × Printed). ok (p.0, m)

abbrev discarding : Result StdRet → Memory → Result (StdRet × Memory)
discarding r m = r >>= λ ret. ok (ret, m)

unfoldable pub mock_receivers : (ℕ → Receiver) → Receivers
mock_receivers own fec_receive_btp n len bytes m = printing (receive_btp n len (some bytes)) m
mock_receivers own oscom_receive_msg n len bytes m = printing (receive_msg n len (some bytes)) m
mock_receivers own iscdisp_send_spdu n len bytes m = discarding (app_send_spdu n len (some bytes)) m
mock_receivers own oscom_send_spdu n len bytes m = discarding (os_send_spdu n len (some bytes)) m
mock_receivers own (user_callback k) n len bytes m = own k n len bytes m

printing-arrays :
    (r : Result (StdRet × Printed)) (m : Memory)
    → Ensures (λ (p : StdRet × Memory). p.1.arrays ≡ m.arrays) (printing r m)
printing-arrays r m =
    Ensures-bind (λ p. Unit {0}) (λ (p : StdRet × Memory). p.1.arrays ≡ m.arrays) r _
      (Ensures-any r) (λ p h. refl)

discarding-arrays :
    (r : Result StdRet) (m : Memory)
    → Ensures (λ (p : StdRet × Memory). p.1.arrays ≡ m.arrays) (discarding r m)
discarding-arrays r m =
    Ensures-bind (λ p. Unit {0}) (λ (p : StdRet × Memory). p.1.arrays ≡ m.arrays) r _
      (Ensures-any r) (λ p h. refl)

-- With callbacks of the caller that leave the machines alone, all do.
pub mock_receivers-LeaveMachines :
    (own : ℕ → Receiver)
    → ((k n len : ℕ) (bytes : List ℕ) (m : Memory)
        → Ensures (λ (p : StdRet × Memory). p.1.arrays ≡ m.arrays) (own k n len bytes m))
    → LeaveMachines (mock_receivers own)
unfolding mock_receivers
mock_receivers-LeaveMachines own h fec_receive_btp n len bytes m = printing-arrays _ m
mock_receivers-LeaveMachines own h oscom_receive_msg n len bytes m = printing-arrays _ m
mock_receivers-LeaveMachines own h iscdisp_send_spdu n len bytes m = discarding-arrays _ m
mock_receivers-LeaveMachines own h oscom_send_spdu n len bytes m = discarding-arrays _ m
mock_receivers-LeaveMachines own h (user_callback k) n len bytes m = h k n len bytes m
