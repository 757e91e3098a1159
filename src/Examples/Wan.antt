-- ===== src/Examples/Wan.antt =====
-- A cellular connection, asked for and pending.
use webos_connman_adapter.Base.{◌≡◌, ◌+◌, true, [], ◌∷◌, some, ltb, codes}
use webos_connman_adapter.Technology.{Technology, blank_technology}
use webos_connman_adapter.Service.State.{Service}
use webos_connman_adapter.Service.Kind.{ServiceType}
use webos_connman_adapter.Service.Update.{blank_service}
use webos_connman_adapter.Manager.State.{Manager, new_manager}
use webos_connman_adapter.Pan.Answers.{answers, one_if}
use webos_connman_adapter.Wan.Connect.{Wan, handle_wan_connect_command}
use webos_connman_adapter.Wan.Answers.{waiting, receive, initial, Step, Reach, calls-answered}

abbrev context : Service
context = record (blank_service "/net/connman/service/cellular_0") {
  type = ServiceType.cellular;
  name = some "internet";
}

abbrev modem : Technology
modem = record (blank_technology "/net/connman/technology/cellular") {
  type = some "cellular";
  powered = true;
}

abbrev manager : Manager
manager = record new_manager { cellular_services = context ∷ []; technologies = modem ∷ [] }

abbrev pending : Wan
pending = receive (handle_wan_connect_command codes (codes "internet") 0 (initial manager))

calls-answered_example :
    answers 0 pending.replies + waiting 0 pending.calls ≡ one_if (ltb 0 pending.received)
calls-answered_example =
    calls-answered 0 (Reach.next Reach.here (Step.connect codes (codes "internet")))
