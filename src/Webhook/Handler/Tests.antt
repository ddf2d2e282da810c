-- ===== src/Webhook/Handler/Tests.antt =====
-- Deliveries of a pipeline.
use cigar.Prelude.{◌≡◌, ◌↔◌, true, false, none, some, [], ◌∷◌, All}
use cigar.Prelude.Int.{pos}
use cigar.Text.{codes}
use cigar.Queue.{new_queue}
use cigar.Webhook.Auth.{Request}
use cigar.Webhook.Event.{PipelineEvent, Json}
use cigar.Webhook.Handler.{Handler, Service, handle}
use cigar.Webhook.Handler.Spec.{work, Meets, handle-Meets}
use cigar.Webhook.Handler.Work.{IsWork, handle-AllWork, handle_unauthorized}

abbrev finished : PipelineEvent
finished = record {
  object_kind = codes "pipeline";
  id = pos 12;
  status = codes "success";
  branch = codes "main";
  project_id = pos 3;
  user = some (pos 5);
  merge_request = some (pos 7);
}

abbrev one_event : Json
one_event = record { pipeline_event = λ body. some finished; note_payload = λ body. none }

abbrev a_handler : Handler
a_handler = record { authentic = λ c. true; commands_enabled = true; recording = true }

abbrev a_closed_handler : Handler
a_closed_handler = record { authentic = λ c. false; commands_enabled = true; recording = true }

abbrev idle : Service
idle = record { queue = new_queue 1; deliveries = []; users = [] }

abbrev a_request : Request
a_request = record { header = λ name. codes "Pipeline Hook"; body = codes "{}" }

handle-Meets_example :
    Meets
      (new_queue 1)
      (work one_event a_handler a_request)
      (handle one_event a_handler idle a_request).0.queue
      (handle one_event a_handler idle a_request).1
handle-Meets_example = handle-Meets one_event a_handler idle a_request

handle-AllWork_example : All IsWork (handle one_event a_handler idle a_request).0.queue.ch
unfolding new_queue
handle-AllWork_example = handle-AllWork one_event a_handler idle a_request tt

handle_unauthorized_example :
    ((handle one_event a_closed_handler idle a_request).1 ≡ 401 ↔ false ≡ false)
    × (false ≡ false
        → (handle one_event a_closed_handler idle a_request).0
          ≡ record { queue = new_queue 1; deliveries = (pos 0, 401) ∷ []; users = [] })
handle_unauthorized_example = handle_unauthorized one_event a_closed_handler idle a_request
