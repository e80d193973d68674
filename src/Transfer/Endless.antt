-- ===== src/Transfer/Endless.antt =====
-- What the loop of chap-5/tcp_server.c does when every read fails.
use geek_network_programming.Base.{
  ℕ, zero, suc, ◌≡◌, refl, false, none, List, [], ◌∷◌, ◌++◌, ◌==◌, replicate,
}
use geek_network_programming.Sys.{Reply, failed, eintr, done, blocked}
use geek_network_programming.Framing.{read, readn, readn_loop}
use geek_network_programming.Transfer.{read_data}

failed_readn :
    (fd e : ℕ) (rs : List Reply)
    → (e == eintr) ≡ false
    → readn fd 1024 (failed e ∷ rs) ≡ done none rs (read fd 1024 ∷ [])
unfolding readn readn_loop
failed_readn fd e rs other = rw other refl

-- When every read() fails with an error other than EINTR, read_data does not end: for any number of
-- rounds it has made as many calls.
pub read_data_failed :
    (fd e rounds : ℕ) (rs : List Reply)
    → (e == eintr) ≡ false
    → read_data rounds fd (replicate rounds (failed e) ++ rs)
      ≡ blocked (replicate rounds (read fd 1024))
unfolding read_data
read_data_failed fd e zero rs other = refl
read_data_failed fd e (suc n) rs other =
    rw (failed_readn fd e (replicate n (failed e) ++ rs) other, read_data_failed fd e n rs other)
      refl
