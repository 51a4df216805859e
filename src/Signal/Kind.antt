-- ===== src/Signal/Kind.antt =====
-- crates/avix-core/src/signal/kind.rs.
use avix.Base.{ℕ, String}

pub data SignalKind : Type 0 where
  sig_start sig_pause sig_resume sig_kill sig_stop sig_save sig_pipe sig_escalate sig_usr1
        sig_usr2 :
      SignalKind

unfoldable pub signal_name : SignalKind → String
signal_name sig_start = "SIGSTART"
signal_name sig_pause = "SIGPAUSE"
signal_name sig_resume = "SIGRESUME"
signal_name sig_kill = "SIGKILL"
signal_name sig_stop = "SIGSTOP"
signal_name sig_save = "SIGSAVE"
signal_name sig_pipe = "SIGPIPE"
signal_name sig_escalate = "SIGESCALATE"
signal_name sig_usr1 = "SIGUSR1"
signal_name sig_usr2 = "SIGUSR2"

-- `Payload` stands for the values of serde_json.
pub record Signal (Payload : Type 0) : Type 0 where
  pub target : ℕ
  pub kind : SignalKind
  pub payload : Payload
