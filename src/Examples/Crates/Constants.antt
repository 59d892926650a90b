-- ===== src/Examples/Crates/Constants.antt =====
-- The command bytes and the capabilities of mysql_common.
use opensrv.Common.{arith}
use opensrv.Deps.Combinators.{CommandByte}
use opensrv.Deps.Capabilities.{Capabilities}

abbrev pub codes : CommandByte
codes = record {
  com_query = 3;
  com_field_list = 4;
  com_init_db = 2;
  com_stmt_prepare = 0x16;
  com_stmt_execute = 0x17;
  com_stmt_fetch = 0x1c;
  com_stmt_send_long_data = 0x18;
  com_stmt_close = 0x19;
  com_stmt_reset = 0x1a;
  com_quit = 1;
  com_ping = 14;
  com_reset_connection = 0x1f;
  distinct = (
    (
      (λ e. absurd (omega arith)),
      (
        (λ e. absurd (omega arith)),
        (
          (λ e. absurd (omega arith)),
          (
            (λ e. absurd (omega arith)),
            (
              (λ e. absurd (omega arith)),
              (
                (λ e. absurd (omega arith)),
                (
                  (λ e. absurd (omega arith)),
                  (
                    (λ e. absurd (omega arith)),
                    (
                      (λ e. absurd (omega arith)),
                      ((λ e. absurd (omega arith)), ((λ e. absurd (omega arith)), tt)),
                    ),
                  ),
                ),
              ),
            ),
          ),
        ),
      ),
    ),
    (
      (
        (λ e. absurd (omega arith)),
        (
          (λ e. absurd (omega arith)),
          (
            (λ e. absurd (omega arith)),
            (
              (λ e. absurd (omega arith)),
              (
                (λ e. absurd (omega arith)),
                (
                  (λ e. absurd (omega arith)),
                  (
                    (λ e. absurd (omega arith)),
                    (
                      (λ e. absurd (omega arith)),
                      ((λ e. absurd (omega arith)), ((λ e. absurd (omega arith)), tt)),
                    ),
                  ),
                ),
              ),
            ),
          ),
        ),
      ),
      (
        (
          (λ e. absurd (omega arith)),
          (
            (λ e. absurd (omega arith)),
            (
              (λ e. absurd (omega arith)),
              (
                (λ e. absurd (omega arith)),
                (
                  (λ e. absurd (omega arith)),
                  (
                    (λ e. absurd (omega arith)),
                    (
                      (λ e. absurd (omega arith)),
                      ((λ e. absurd (omega arith)), ((λ e. absurd (omega arith)), tt)),
                    ),
                  ),
                ),
              ),
            ),
          ),
        ),
        (
          (
            (λ e. absurd (omega arith)),
            (
              (λ e. absurd (omega arith)),
              (
                (λ e. absurd (omega arith)),
                (
                  (λ e. absurd (omega arith)),
                  (
                    (λ e. absurd (omega arith)),
                    (
                      (λ e. absurd (omega arith)),
                      ((λ e. absurd (omega arith)), ((λ e. absurd (omega arith)), tt)),
                    ),
                  ),
                ),
              ),
            ),
          ),
          (
            (
              (λ e. absurd (omega arith)),
              (
                (λ e. absurd (omega arith)),
                (
                  (λ e. absurd (omega arith)),
                  (
                    (λ e. absurd (omega arith)),
                    (
                      (λ e. absurd (omega arith)),
                      ((λ e. absurd (omega arith)), ((λ e. absurd (omega arith)), tt)),
                    ),
                  ),
                ),
              ),
            ),
            (
              (
                (λ e. absurd (omega arith)),
                (
                  (λ e. absurd (omega arith)),
                  (
                    (λ e. absurd (omega arith)),
                    (
                      (λ e. absurd (omega arith)),
                      ((λ e. absurd (omega arith)), ((λ e. absurd (omega arith)), tt)),
                    ),
                  ),
                ),
              ),
              (
                (
                  (λ e. absurd (omega arith)),
                  (
                    (λ e. absurd (omega arith)),
                    (
                      (λ e. absurd (omega arith)),
                      ((λ e. absurd (omega arith)), ((λ e. absurd (omega arith)), tt)),
                    ),
                  ),
                ),
                (
                  (
                    (λ e. absurd (omega arith)),
                    (
                      (λ e. absurd (omega arith)),
                      ((λ e. absurd (omega arith)), ((λ e. absurd (omega arith)), tt)),
                    ),
                  ),
                  (
                    (
                      (λ e. absurd (omega arith)),
                      ((λ e. absurd (omega arith)), ((λ e. absurd (omega arith)), tt)),
                    ),
                    (
                      ((λ e. absurd (omega arith)), ((λ e. absurd (omega arith)), tt)),
                      (((λ e. absurd (omega arith)), tt), (tt, tt)),
                    ),
                  ),
                ),
              ),
            ),
          ),
        ),
      ),
    ),
  );
}

-- The bits of the flags, in the order of the protocol.
abbrev pub capabilities : Capabilities
capabilities = record {
  from_bits_truncate = λ bits. bits;
  protocol_41 = 512;
  ssl = 2048;
  long_flag = 4;
  secure_connection = 32768;
  plugin_auth = 524288;
  plugin_auth_lenenc_client_data = 2097152;
  connect_with_db = 8;
  session_track = 8388608;
  deprecate_eof = 16777216;
  multi_results = 131072;
  ps_multi_results = 262144;
}
