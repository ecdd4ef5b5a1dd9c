-- ===== src/Reactor/Operations.antt =====
-- `io_operation` and the events of epoll, a Boolean for each bit.
use svarog_io.Common.{Bool, true, false, ◌&&◌, ◌||◌}

pub record IoOperation : Type 0 where
  pub read : Bool
  pub write : Bool
  pub accept : Bool
  pub connect : Bool
  pub error : Bool
  pub hangup : Bool

abbrev pub no_operation : IoOperation
no_operation = record {
  read = false;
  write = false;
  accept = false;
  connect = false;
  error = false;
  hangup = false;
}

-- `operator|` and `operator&`
abbrev pub union : IoOperation → IoOperation → IoOperation
union a b = record {
  read = a.read || b.read;
  write = a.write || b.write;
  accept = a.accept || b.accept;
  connect = a.connect || b.connect;
  error = a.error || b.error;
  hangup = a.hangup || b.hangup;
}

abbrev pub common : IoOperation → IoOperation → IoOperation
common a b = record {
  read = a.read && b.read;
  write = a.write && b.write;
  accept = a.accept && b.accept;
  connect = a.connect && b.connect;
  error = a.error && b.error;
  hangup = a.hangup && b.hangup;
}

unfoldable same_bit : Bool → Bool → Bool
same_bit true b = b
same_bit false true = false
same_bit false false = true

unfoldable same : IoOperation → IoOperation → Bool
unfolding same_bit
same a b =
    same_bit a.read b.read
    && (same_bit a.write b.write
        && (same_bit a.accept b.accept
            && (same_bit a.connect b.connect
                && (same_bit a.error b.error && same_bit a.hangup b.hangup))))

-- `(t_mask & t_op) == t_op`
unfoldable pub has_operation : IoOperation → IoOperation → Bool
unfolding same
has_operation mask op = same (common mask op) op

-- `EPOLLIN`, `EPOLLOUT`, `EPOLLERR`, `EPOLLHUP` and `EPOLLET`
pub record Events : Type 0 where
  pub input : Bool
  pub output : Bool
  pub err : Bool
  pub hup : Bool
  pub edge : Bool

unfoldable pub to_epoll_events : IoOperation → Events
unfolding has_operation
to_epoll_events ops = record {
  input = has_operation ops (record no_operation { read = true });
  output = has_operation ops (record no_operation { write = true });
  err = false;
  hup = false;
  edge = false;
}

unfoldable pub from_epoll_events : Events → IoOperation
from_epoll_events e = record no_operation {
  read = e.input;
  write = e.output;
  error = e.err;
  hangup = e.hup;
}
