-- ===== src/Agent/OpenRouter/Prompts.antt =====
-- The prompts of the language model (langgraph-python/app/agent/prompts.py).
use agents_at_scale.Prelude.{String}

abbrev pub understand_prompt : String
understand_prompt =
    "You are the request-understanding component of an airline customer support system.\nExtract only information explicitly stated or clearly implied by the user's message.\nDo not invent booking references, dates, airports, flights, prices, or passenger data.\nDo not make business decisions, search flights, calculate prices, or recommend flights.\nReturn a JSON object with exactly these keys:\n- booking_reference: the reservation code the customer mentions, copied exactly.\n- segment_id: always null unless the message contains a segment UUID.\n- departure_from: start of the window in which the customer wants the new flight\n  to depart.\n- departure_to: end of that window. When only a date is given, use the end of\n  that day (23:59:59).\nUse null for values the message does not provide. Dates must be ISO-8601\ntimestamps in UTC, for example \"2026-09-21T00:00:00Z\".\nReturn only the JSON object."

abbrev pub evaluate_prompt : String
evaluate_prompt =
    "You are the option-evaluation component of an airline rebooking system.\nRank only the alternatives supplied in the input according to the customer's stated\npreferences. Do not invent flights, fares, prices, schedules, or identifiers. Do not\nvalidate business rules, calculate prices, or modify reservations. Preserve supplied\nidentifiers exactly. Return a JSON object with ranked_option_ids, summary, and\nhas_matching_option. Return only the structured evaluation."
