-- ===== src/Requests/Examples.antt =====
-- The theorems on the waiting requests at a concrete instance.
use libdsvdc.Base.{◌≡◌, refl, true, some, [], ◌∷◌, arith}
use libdsvdc.Effects.Ends.{Ends}
use libdsvdc.Message.{Body, vdc_send_announce_vdc_type, vdc_send_announce_vdc}
use libdsvdc.Requests.{announce, get_cached_request, cleanup_request_list}
use libdsvdc.Requests.Announce.{AnnouncedWithLocks, announce-Announced}
use libdsvdc.Requests.Answers.{staying}
use libdsvdc.Requests.Cleanup.{CleanedUp, cleanup_request_list-Cleaned}
use libdsvdc.Requests.Order.{Below}
use libdsvdc.Requests.Take.{Taken, get_cached_request-Taken}
use libdsvdc.Samples.{world-IsModest, running, world, instance_handle, newer_request}

in_order : Below 5 running.handle.requests_list
in_order = (omega arith, (omega arith, tt))

abbrev body : Body
body = vdc_send_announce_vdc (some (65 ∷ []))

announce-Announced_example :
    Ends
      (AnnouncedWithLocks world vdc_send_announce_vdc_type body 50 (some 13) running)
      (announce world vdc_send_announce_vdc_type body 50 (some 13) running)
announce-Announced_example =
    announce-Announced world vdc_send_announce_vdc_type body 50 (some 13) running

get_cached_request-Taken_example : Ends (Taken 7 running) (get_cached_request 7 running)
get_cached_request-Taken_example = get_cached_request-Taken 7 5 running in_order

-- At time 100 the request of time 80 is out of date, and that of time 95 is not.
staying_run : staying true 100 instance_handle.requests_list ≡ newer_request ∷ []
staying_run = refl

cleanup_request_list-Cleaned_example :
    Ends (λ _ t. CleanedUp true running t) (cleanup_request_list world true running)
cleanup_request_list-Cleaned_example =
    cleanup_request_list-Cleaned world world-IsModest 5 true running in_order
      ((λ e. cc), ((λ e. cc), tt))
