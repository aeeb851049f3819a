-- ===== src/Send/Examples.antt =====
-- The theorems on sending at a concrete instance and stream.
use libdsvdc.Base.{◌≡◌, refl, ◌↔◌, ◌<◌, ◌%◌, ◌^◌, List, [], ◌∷◌, arith}
use libdsvdc.Effects.Ends.{Ends}
use libdsvdc.Message.{vdc_send_pong_type, vdc_send_pong, Outgoing}
use libdsvdc.Samples.{running, world}
use libdsvdc.Send.{htons, plain_message, send_message}
use libdsvdc.Send.Frame.{ntohs, htons-announced, Sent, send_message-Sent}
use libdsvdc.Send.Receive.{framed-Read}
use libdsvdc.Sock.{ReadEvent, chunk, returned, socket_ok, sockread}
use libdsvdc.Sock.Read.{stream}

abbrev pong : Outgoing
pong = plain_message vdc_send_pong_type (vdc_send_pong (65 ∷ []))

send_message-Sent_example : Ends (Sent world pong running) (send_message world pong running)
send_message-Sent_example = send_message-Sent world pong running

-- The frame of three bytes in two segments, followed by one byte more.
abbrev segments : List ReadEvent
segments = chunk 0 (3 ∷ 10 ∷ []) ∷ ReadEvent.interrupted ∷ chunk 20 (30 ∷ 99 ∷ []) ∷ []

segments_framed : stream segments ≡ 0 ∷ 3 ∷ 10 ∷ 20 ∷ 30 ∷ 99 ∷ []
segments_framed = refl

framed-Read_example :
    (middle rest : List ReadEvent) × (sockread 2 5 segments ≡ returned socket_ok (htons 3) middle)
    × (sockread (ntohs (htons 3)) 5 middle ≡ returned socket_ok (10 ∷ 20 ∷ 30 ∷ []) rest)
    × (stream rest ≡ 99 ∷ [])
unfolding htons
framed-Read_example =
    framed-Read (10 ∷ 20 ∷ 30 ∷ []) (99 ∷ []) 5 segments (omega arith) (omega arith) tt refl

htons-announced_example :
    (ntohs (htons 70000) ≡ 70000 % 2 ^ 16) × ((ntohs (htons 70000) ≡ 70000) ↔ (70000 < 65536))
htons-announced_example = htons-announced 70000
