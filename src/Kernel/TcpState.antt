-- ===== src/Kernel/TcpState.antt =====
-- builder/vmlinux.h: the constants TCP_ESTABLISHED to TCP_MAX_STATES, the values of `skc_state`.
use bumblebee.Common.{ℕ}

pub data TcpState : Type 0 where
  established syn_sent syn_recv fin_wait1 fin_wait2 time_wait close close_wait : TcpState
  last_ack listen closing new_syn_recv max_states : TcpState

abbrev pub tcp_state : TcpState → ℕ
tcp_state TcpState.established = 1
tcp_state TcpState.syn_sent = 2
tcp_state TcpState.syn_recv = 3
tcp_state TcpState.fin_wait1 = 4
tcp_state TcpState.fin_wait2 = 5
tcp_state TcpState.time_wait = 6
tcp_state TcpState.close = 7
tcp_state TcpState.close_wait = 8
tcp_state TcpState.last_ack = 9
tcp_state TcpState.listen = 10
tcp_state TcpState.closing = 11
tcp_state TcpState.new_syn_recv = 12
tcp_state TcpState.max_states = 13
