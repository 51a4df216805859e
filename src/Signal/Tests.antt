-- ===== src/Signal/Tests.antt =====
-- Tests of the signals.
use avix.Base.{ℕ, nat_eq, false, none, some, decimal, ◌+++◌, ◌∷◌, [], ◌≡◌, refl}
use avix.Base.Dict.{get, insert}
use avix.Signal.Kind.{sig_pause}
use avix.Signal.Bus.{
  SignalBus, new_signal_bus, subscribe_signal, unsubscribe_signal, subscriber_count,
}
use avix.Errors.{err}
use avix.Signal.PipePayload.{
  inline, vfs_ref, base64, check_attachment, check_attachments, validate_pipe_payload,
}
use avix.Signal.Channels.{send_signal_to}

abbrev twice_heard : SignalBus ℕ
twice_heard = (subscribe_signal 7 (subscribe_signal 7 new_signal_bus).1).1

two_listen : subscriber_count 7 twice_heard ≡ 2
unfolding subscriber_count subscribe_signal get insert
two_listen = refl

one_is_left : subscriber_count 7 (unsubscribe_signal 7 0 twice_heard) ≡ 1
unfolding subscriber_count unsubscribe_signal subscribe_signal get insert
one_is_left = refl

-- Nobody has registered a channel.
no_channel :
    (send_signal_to {Payload = ℕ} 7 (record { target = 7; kind = sig_pause; payload = 0 }) []).0
    ≡ false
unfolding send_signal_to get
no_channel = refl

-- A path to a secret is not forwarded, even behind a sound attachment.
secret_is_kept :
    validate_pipe_payload
      (λ _. none)
      (record {
        text = none;
        attachments = some (
            inline "text/plain" base64 "aGk=" none ∷ vfs_ref "/secrets/key" "text/plain" none ∷ []);
      })
    ≡ err ("attachment[" +++ decimal 1 +++ "] vfs_ref path '/secrets/' is forbidden")
unfolding validate_pipe_payload check_attachments check_attachment
secret_is_kept = refl
