-- ===== src/Net/Calls.antt =====
-- The modem's socket calls: what the code asked for, in order, and what the modem answers.
use nrf.Base.{ℕ, suc, List, [], ◌∷◌}
use nrf.Base.Int.{ℤ}

-- The calls whose order and number matter; options and addresses are those of the source.
pub data NetCall : Type 0 where
  getaddrinfo socket bind_to_pdn send_timeout recv_timeout bind connect send recv close : NetCall

-- The results of the calls in one run. Those of send and recv are lengths or negative errors, and
-- that of socket is a descriptor or a negative error.
pub record Modem : Type 0 where
  pub getaddrinfo_result : ℤ
  pub socket_result : ℤ
  pub bind_to_pdn_result : ℤ
  pub send_timeout_result : ℤ
  pub recv_timeout_result : ℤ
  pub bind_result : ℤ
  pub connect_result : ℤ
  pub send_result : ℤ
  pub recv_result : ℤ

-- How many sockets a sequence of calls has opened, when each `socket` call succeeds, and closed.
unfoldable pub opened : List NetCall → ℕ
opened [] = 0
opened (socket ∷ calls) = suc (opened calls)
opened (call ∷ calls) = opened calls

unfoldable pub closed : List NetCall → ℕ
closed [] = 0
closed (close ∷ calls) = suc (closed calls)
closed (call ∷ calls) = closed calls
