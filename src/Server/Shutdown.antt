-- ===== src/Server/Shutdown.antt =====
-- libmsrv/src/msrvserver.cc: class ConnIter and ServerListener::shutdown.
pub mod Walk
pub mod Several
pub mod Single
pub mod Alone
use magicserver.Prelude.{
  ℕ, zero, suc, true, false, ℤ, ◌==ℤ◌, if◌then◌else◌, Outcome, ok, out_of_fuel, ◌>>=◌,
}
use magicserver.Errors.{MsrvResult, success}
use magicserver.Memory.{Ptr, Memory}
use magicserver.Container.Array.{Iterator, iterate, get, next, exhausted}
use magicserver.Listener.{Descriptor}
use magicserver.Request.{shutdown_request, requested, shutdown_type}
use magicserver.Server.{Server, server_close, close_fd, server_remove}
use magicserver.Server.Events.{Process}

-- while (!mDescIter.exhausted () && mDescIter.get ().mFd == rServer.mSocket) mDescIter.next ();
pub skip_socket : ℕ → ℤ → Iterator → Memory Descriptor → Outcome Iterator
skip_socket zero socket it m = out_of_fuel
skip_socket (suc f) socket it m = elim (exhausted it) [
  | true ↦ ok it
  | false ↦ do
    d ← get it m
    elim (d.fd ==ℤ socket) [ true ↦ skip_socket f socket (next it) m | false ↦ ok it ]
]

-- ServerListener::ConnIter::ConnIter
pub conn_iter : ℕ → Server → Outcome Iterator
unfolding skip_socket
conn_iter f s = skip_socket f s.socket (iterate s.listener.descriptors) s.listener.storage

-- Connection& ConnIter::get ()
pub conn_get : Iterator → Server → Outcome Ptr
conn_get it s = do d ← get it s.listener.storage; ok d.object

-- void ConnIter::next ()
pub conn_next : ℕ → Iterator → Server → Outcome Iterator
unfolding skip_socket
conn_next f it s = skip_socket f s.socket (next it) s.listener.storage

-- for (ConnIter conn_i (*this); !conn_i.exhausted (); conn_i.next ()) close (&conn_i.get ());
pub close_all : ℕ → Iterator → Server → Outcome Server
close_all zero it s = out_of_fuel
close_all (suc f) it s = elim (exhausted it) [
  | true ↦ ok s
  | false ↦ do
    p ← conn_get it s
    (_, s₁) ← server_close p s
    it₁ ← conn_next (suc f) it s₁
    close_all f it₁ s₁
]

-- Telling the handler, if the mask has it.
unfoldable pub announce : Process → Server → Outcome (MsrvResult × Server)
announce process s =
    if requested s.request_mask shutdown_type then process shutdown_request s else ok (success, s)

-- MSrvResult ServerListener::shutdown (), with fuel for the loop over the connections.
pub shutdown : Process → ℕ → Server → Outcome (MsrvResult × Server)
unfolding announce conn_iter
shutdown process f s = do
  (result, s₁) ← announce process s
  it ← conn_iter f s₁
  s₂ ← close_all f it s₁
  (_, s₃) ← server_remove s₂.socket (close_fd s₂.socket s₂)
  ok (result, s₃)
