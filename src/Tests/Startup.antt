-- ===== src/Tests/Startup.antt =====
-- The start of the programs at concrete arguments.
use np_hw.Prelude.{ℕ, ◌≡◌, refl, Option, some, none, [], ◌∷◌, Str, lit, pos, negsuc}
use np_hw.Sockets.{is_negative}
use np_hw.Startup.{Calls, server_main, client_main, client_main-server_main}

-- Knows one address.
abbrev loopback : Str → Option ℕ
loopback text = some 1

abbrev all_fine : Calls
all_fine = record { udp_bound = pos 0; tcp_bound = pos 0; listening = pos 0 }

client_main-server_main_example :
    client_main loopback (pos 0) (lit "client" ∷ (lit "here" ∷ (lit "8080" ∷ [])))
    ≡ some (record { host = 1; port = 8080 })
unfolding lit is_negative
client_main-server_main_example =
    client_main-server_main loopback all_fine (pos 0) (lit "client") (lit "here") (lit "8080") 1
      8080 (unfold server_main in refl) refl refl

-- A port that only the client takes.
client_main_large :
    (server_main all_fine (lit "server" ∷ (lit "65536" ∷ [])) ≡ none)
    × (client_main loopback (pos 0) (lit "client" ∷ (lit "here" ∷ (lit "65536" ∷ [])))
        ≡ some (record { host = 1; port = 0 }))
unfolding lit server_main client_main
client_main_large = (refl, refl)

-- A port that somebody else has.
server_main_taken :
    server_main (record all_fine { tcp_bound = negsuc 0 }) (lit "server" ∷ (lit "8080" ∷ [])) ≡ none
unfolding lit server_main
server_main_taken = refl
