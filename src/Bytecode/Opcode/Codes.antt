-- ===== src/Bytecode/Opcode/Codes.antt =====
-- src/include/vm/instruction.h: the number of each opcode.
use vxx.Prelude.{
  ℕ, Option, none, some, List, [], ◌∷◌, ◌==◌, if◌then◌else◌, ◌≡◌, refl, ap, inl, inr, Bool-cases,
  arith,
}
use vxx.Prelude.Int.{ℤ, pos, negsuc}
use vxx.Bytecode.Opcode.{
  Opcode, op_cong, op_tru, op_nhan, op_chia, op_logic_va, op_logic_hoac, op_khong, op_so_sanh_bang,
  op_khac_bang, op_lon_hon, op_nho_hon, op_lon_hon_hoac_bang, op_nho_hon_hoac_bang, op_gan,
  op_mo_khoi, op_dong_khoi, op_mo_ngoac, op_dong_ngoac, op_mo_mang, op_dong_mang, op_dong_lenh,
  op_phay, op_neu, op_hoac, op_neu_khong, op_ket_thuc_neu, op_lap, op_khoi_tao, op_dieu_kien,
  op_cap_nhat, op_kiem_tra_sau, op_ket_thuc_lap, op_bo_qua, op_thoat, op_chuyen, op_truong_hop,
  op_mac_dinh, op_ket_thuc_chuyen, op_ham, op_goi, op_tra_ve, op_bien_so, op_in,
  op_dung_chuong_trinh, op_ten_bien_id, op_ten_bien_gia_tri, op_jump_if_false, op_jump, op_modulo,
  op_chuoi, op_phu_dinh, op_chon, op_ca, op_param, op_cong_mot, op_tru_mot, op_cong_gan, op_tru_gan,
  op_nhan_gan, op_chia_gan, op_modulo_gan, op_dung_gia_tri, op_sai_gia_tri, op_bien_so_float,
  op_nem, op_thu, op_thu_ket_thuc, op_bat_loi, op_rong_gia_tri, op_map_literal, op_goi_gian_tiep,
  op_param_mac_dinh, op_list_literal, op_doc_chi_so, op_gan_chi_so, op_tao_lop, op_them_phuong_thuc,
  op_tao_doi_tuong, op_doc_thuoc_tinh, op_gan_thuoc_tinh, op_goi_phuong_thuc, op_tao_dong_bao,
  op_vm_bien_dich_phan_tich, op_vm_dns_phan_giai, op_vm_doc_bien_moi_truong,
  op_vm_dong_ho_dia_phuong, op_vm_dong_ho_utc, op_vm_duong_dan_ton_tai, op_vm_io_doc_bytes,
  op_vm_io_doc_file, op_vm_io_ghi_bytes, op_vm_io_ghi_file, op_vm_io_ghi_tiep_file,
  op_vm_kich_ban_chay, op_vm_ky_tu_unicode, op_vm_la_tep, op_vm_la_thu_muc_khong_theo_lien_ket,
  op_vm_la_thu_muc, op_vm_liet_ke_thu_muc, op_vm_ma_diem_unicode, op_vm_ngau_nhien_bao_mat_bytes,
  op_vm_ngu_mili_giay, op_vm_so_thuc_bits, op_vm_so_thuc_dac_biet, op_vm_socket_chap_nhan,
  op_vm_socket_dat_timeout, op_vm_socket_dong, op_vm_socket_gui, op_vm_socket_nhan,
  op_vm_socket_phan_giai, op_vm_socket_tcp_lang_nghe, op_vm_socket_tcp_mo,
  op_vm_socket_tls_nang_cap, op_vm_socket_udp_mo, op_vm_tao_thu_muc, op_vm_task_cancel,
  op_vm_task_schedule, op_vm_task_status, op_vm_task_wait, op_vm_ten_nen_tang,
  op_vm_thoi_gian_don_dieu_ms, op_vm_tien_trinh_chay, op_vm_xoa_duong_dan, op_vm_thread_spawn,
  op_vm_thread_wait, op_vm_thread_cancel, op_vm_thread_status, op_vm_thread_park,
  op_vm_tuple_from_list, op_vm_type_of, op_vm_identity_hash, op_vm_length, op_vm_list_append,
  op_vm_list_remove, op_vm_map_has, op_vm_map_remove, op_vm_map_keys, op_vm_string_bytes,
  op_vm_string_from_bytes, op_vm_float_from_bits, op_ffi_call, op_vm_bytecode_chay,
  op_native_artifact_chay, op_vm_machine_file_open, op_vm_machine_file_read,
  op_vm_machine_file_write, op_vm_machine_file_close, op_vm_machine_file_seek,
  op_vm_machine_file_tell, op_vm_machine_file_error, op_vm_machine_file_remove,
  op_vm_machine_process_pid, op_vm_machine_process_ppid, op_vm_machine_process_uid,
  op_vm_machine_process_euid, op_vm_machine_process_gid, op_vm_machine_process_egid,
  op_vm_machine_time_sleep, op_vm_machine_time_monotonic, op_vm_machine_time_realtime,
  op_vm_machine_entropy_read, op_vm_machine_env_get, op_vm_machine_time_local,
  op_vm_machine_dir_mkdir, op_vm_machine_dir_remove, op_vm_machine_dir_open, op_vm_machine_dir_next,
  op_vm_machine_dir_close, op_vm_machine_path_kind, op_vm_machine_socket_kind,
  op_vm_machine_socket_close, op_vm_machine_socket_timeout, op_vm_machine_socket_send,
  op_vm_machine_socket_recv, op_vm_machine_socket_accept, op_vm_machine_socket_listen,
  op_vm_machine_socket_connect, op_vm_machine_process_new, op_vm_machine_process_arg,
  op_vm_machine_process_command_line, op_vm_machine_process_env, op_vm_machine_process_start,
  op_vm_machine_process_poll, op_vm_machine_process_read, op_vm_machine_process_wait,
  op_vm_machine_process_error, op_vm_machine_process_close, op_vm_machine_resolve_open,
  op_vm_machine_resolve_next, op_vm_machine_resolve_close, op_vm_machine_tls_upgrade,
  op_vm_machine_tls_send, op_vm_machine_tls_recv,
}

-- `static_cast<int>` of an enumerator.
unfoldable pub code_of : Opcode → ℕ
code_of op_cong = 0
code_of op_tru = 1
code_of op_nhan = 2
code_of op_chia = 3
code_of op_logic_va = 4
code_of op_logic_hoac = 5
code_of op_khong = 6
code_of op_so_sanh_bang = 7
code_of op_khac_bang = 8
code_of op_lon_hon = 9
code_of op_nho_hon = 10
code_of op_lon_hon_hoac_bang = 11
code_of op_nho_hon_hoac_bang = 12
code_of op_gan = 13
code_of op_mo_khoi = 14
code_of op_dong_khoi = 15
code_of op_mo_ngoac = 16
code_of op_dong_ngoac = 17
code_of op_mo_mang = 18
code_of op_dong_mang = 19
code_of op_dong_lenh = 20
code_of op_phay = 21
code_of op_neu = 22
code_of op_hoac = 23
code_of op_neu_khong = 24
code_of op_ket_thuc_neu = 25
code_of op_lap = 26
code_of op_khoi_tao = 27
code_of op_dieu_kien = 28
code_of op_cap_nhat = 29
code_of op_kiem_tra_sau = 30
code_of op_ket_thuc_lap = 31
code_of op_bo_qua = 32
code_of op_thoat = 33
code_of op_chuyen = 34
code_of op_truong_hop = 35
code_of op_mac_dinh = 36
code_of op_ket_thuc_chuyen = 37
code_of op_ham = 38
code_of op_goi = 39
code_of op_tra_ve = 40
code_of op_bien_so = 41
code_of op_in = 43
code_of op_dung_chuong_trinh = 44
code_of op_ten_bien_id = 60
code_of op_ten_bien_gia_tri = 61
code_of op_jump_if_false = 62
code_of op_jump = 63
code_of op_modulo = 64
code_of op_chuoi = 65
code_of op_phu_dinh = 66
code_of op_chon = 67
code_of op_ca = 68
code_of op_param = 69
code_of op_cong_mot = 70
code_of op_tru_mot = 71
code_of op_cong_gan = 72
code_of op_tru_gan = 73
code_of op_nhan_gan = 74
code_of op_chia_gan = 75
code_of op_modulo_gan = 76
code_of op_dung_gia_tri = 77
code_of op_sai_gia_tri = 78
code_of op_bien_so_float = 79
code_of op_nem = 80
code_of op_thu = 81
code_of op_thu_ket_thuc = 82
code_of op_bat_loi = 83
code_of op_rong_gia_tri = 84
code_of op_map_literal = 85
code_of op_goi_gian_tiep = 86
code_of op_param_mac_dinh = 87
code_of op_list_literal = 88
code_of op_doc_chi_so = 89
code_of op_gan_chi_so = 90
code_of op_tao_lop = 91
code_of op_them_phuong_thuc = 92
code_of op_tao_doi_tuong = 93
code_of op_doc_thuoc_tinh = 94
code_of op_gan_thuoc_tinh = 95
code_of op_goi_phuong_thuc = 96
code_of op_tao_dong_bao = 97
code_of op_vm_bien_dich_phan_tich = 98
code_of op_vm_dns_phan_giai = 99
code_of op_vm_doc_bien_moi_truong = 100
code_of op_vm_dong_ho_dia_phuong = 101
code_of op_vm_dong_ho_utc = 102
code_of op_vm_duong_dan_ton_tai = 103
code_of op_vm_io_doc_bytes = 104
code_of op_vm_io_doc_file = 105
code_of op_vm_io_ghi_bytes = 106
code_of op_vm_io_ghi_file = 107
code_of op_vm_io_ghi_tiep_file = 108
code_of op_vm_kich_ban_chay = 109
code_of op_vm_ky_tu_unicode = 110
code_of op_vm_la_tep = 111
code_of op_vm_la_thu_muc_khong_theo_lien_ket = 112
code_of op_vm_la_thu_muc = 113
code_of op_vm_liet_ke_thu_muc = 114
code_of op_vm_ma_diem_unicode = 115
code_of op_vm_ngau_nhien_bao_mat_bytes = 116
code_of op_vm_ngu_mili_giay = 117
code_of op_vm_so_thuc_bits = 118
code_of op_vm_so_thuc_dac_biet = 119
code_of op_vm_socket_chap_nhan = 120
code_of op_vm_socket_dat_timeout = 121
code_of op_vm_socket_dong = 122
code_of op_vm_socket_gui = 123
code_of op_vm_socket_nhan = 124
code_of op_vm_socket_phan_giai = 125
code_of op_vm_socket_tcp_lang_nghe = 126
code_of op_vm_socket_tcp_mo = 127
code_of op_vm_socket_tls_nang_cap = 128
code_of op_vm_socket_udp_mo = 129
code_of op_vm_tao_thu_muc = 130
code_of op_vm_task_cancel = 131
code_of op_vm_task_schedule = 132
code_of op_vm_task_status = 133
code_of op_vm_task_wait = 134
code_of op_vm_ten_nen_tang = 135
code_of op_vm_thoi_gian_don_dieu_ms = 136
code_of op_vm_tien_trinh_chay = 137
code_of op_vm_xoa_duong_dan = 138
code_of op_vm_thread_spawn = 139
code_of op_vm_thread_wait = 140
code_of op_vm_thread_cancel = 141
code_of op_vm_thread_status = 142
code_of op_vm_thread_park = 143
code_of op_vm_tuple_from_list = 144
code_of op_vm_type_of = 145
code_of op_vm_identity_hash = 146
code_of op_vm_length = 147
code_of op_vm_list_append = 148
code_of op_vm_list_remove = 149
code_of op_vm_map_has = 150
code_of op_vm_map_remove = 151
code_of op_vm_map_keys = 152
code_of op_vm_string_bytes = 153
code_of op_vm_string_from_bytes = 154
code_of op_vm_float_from_bits = 155
code_of op_ffi_call = 156
code_of op_vm_bytecode_chay = 157
code_of op_native_artifact_chay = 158
code_of op_vm_machine_file_open = 159
code_of op_vm_machine_file_read = 160
code_of op_vm_machine_file_write = 161
code_of op_vm_machine_file_close = 162
code_of op_vm_machine_file_seek = 163
code_of op_vm_machine_file_tell = 164
code_of op_vm_machine_file_error = 165
code_of op_vm_machine_file_remove = 166
code_of op_vm_machine_process_pid = 167
code_of op_vm_machine_process_ppid = 168
code_of op_vm_machine_process_uid = 169
code_of op_vm_machine_process_euid = 170
code_of op_vm_machine_process_gid = 171
code_of op_vm_machine_process_egid = 172
code_of op_vm_machine_time_sleep = 173
code_of op_vm_machine_time_monotonic = 174
code_of op_vm_machine_time_realtime = 175
code_of op_vm_machine_entropy_read = 176
code_of op_vm_machine_env_get = 177
code_of op_vm_machine_time_local = 178
code_of op_vm_machine_dir_mkdir = 179
code_of op_vm_machine_dir_remove = 180
code_of op_vm_machine_dir_open = 181
code_of op_vm_machine_dir_next = 182
code_of op_vm_machine_dir_close = 183
code_of op_vm_machine_path_kind = 184
code_of op_vm_machine_socket_kind = 185
code_of op_vm_machine_socket_close = 186
code_of op_vm_machine_socket_timeout = 187
code_of op_vm_machine_socket_send = 188
code_of op_vm_machine_socket_recv = 189
code_of op_vm_machine_socket_accept = 190
code_of op_vm_machine_socket_listen = 191
code_of op_vm_machine_socket_connect = 192
code_of op_vm_machine_process_new = 193
code_of op_vm_machine_process_arg = 194
code_of op_vm_machine_process_command_line = 195
code_of op_vm_machine_process_env = 196
code_of op_vm_machine_process_start = 197
code_of op_vm_machine_process_poll = 198
code_of op_vm_machine_process_read = 199
code_of op_vm_machine_process_wait = 200
code_of op_vm_machine_process_error = 201
code_of op_vm_machine_process_close = 202
code_of op_vm_machine_resolve_open = 203
code_of op_vm_machine_resolve_next = 204
code_of op_vm_machine_resolve_close = 205
code_of op_vm_machine_tls_upgrade = 206
code_of op_vm_machine_tls_send = 207
code_of op_vm_machine_tls_recv = 208

-- Every enumerator, in the order of the source.
unfoldable pub all_opcodes : List Opcode
all_opcodes =
    op_cong ∷ op_tru ∷ op_nhan ∷ op_chia ∷ op_logic_va ∷ op_logic_hoac ∷ op_khong ∷ op_so_sanh_bang
    ∷ op_khac_bang ∷ op_lon_hon ∷ op_nho_hon ∷ op_lon_hon_hoac_bang ∷ op_nho_hon_hoac_bang ∷ op_gan
    ∷ op_mo_khoi ∷ op_dong_khoi ∷ op_mo_ngoac ∷ op_dong_ngoac ∷ op_mo_mang ∷ op_dong_mang
    ∷ op_dong_lenh ∷ op_phay ∷ op_neu ∷ op_hoac ∷ op_neu_khong ∷ op_ket_thuc_neu ∷ op_lap
    ∷ op_khoi_tao ∷ op_dieu_kien ∷ op_cap_nhat ∷ op_kiem_tra_sau ∷ op_ket_thuc_lap ∷ op_bo_qua
    ∷ op_thoat ∷ op_chuyen ∷ op_truong_hop ∷ op_mac_dinh ∷ op_ket_thuc_chuyen ∷ op_ham ∷ op_goi
    ∷ op_tra_ve ∷ op_bien_so ∷ op_in ∷ op_dung_chuong_trinh ∷ op_ten_bien_id ∷ op_ten_bien_gia_tri
    ∷ op_jump_if_false ∷ op_jump ∷ op_modulo ∷ op_chuoi ∷ op_phu_dinh ∷ op_chon ∷ op_ca ∷ op_param
    ∷ op_cong_mot ∷ op_tru_mot ∷ op_cong_gan ∷ op_tru_gan ∷ op_nhan_gan ∷ op_chia_gan
    ∷ op_modulo_gan ∷ op_dung_gia_tri ∷ op_sai_gia_tri ∷ op_bien_so_float ∷ op_nem ∷ op_thu
    ∷ op_thu_ket_thuc ∷ op_bat_loi ∷ op_rong_gia_tri ∷ op_map_literal ∷ op_goi_gian_tiep
    ∷ op_param_mac_dinh ∷ op_list_literal ∷ op_doc_chi_so ∷ op_gan_chi_so ∷ op_tao_lop
    ∷ op_them_phuong_thuc ∷ op_tao_doi_tuong ∷ op_doc_thuoc_tinh ∷ op_gan_thuoc_tinh
    ∷ op_goi_phuong_thuc ∷ op_tao_dong_bao ∷ op_vm_bien_dich_phan_tich ∷ op_vm_dns_phan_giai
    ∷ op_vm_doc_bien_moi_truong ∷ op_vm_dong_ho_dia_phuong ∷ op_vm_dong_ho_utc
    ∷ op_vm_duong_dan_ton_tai ∷ op_vm_io_doc_bytes ∷ op_vm_io_doc_file ∷ op_vm_io_ghi_bytes
    ∷ op_vm_io_ghi_file ∷ op_vm_io_ghi_tiep_file ∷ op_vm_kich_ban_chay ∷ op_vm_ky_tu_unicode
    ∷ op_vm_la_tep ∷ op_vm_la_thu_muc_khong_theo_lien_ket ∷ op_vm_la_thu_muc ∷ op_vm_liet_ke_thu_muc
    ∷ op_vm_ma_diem_unicode ∷ op_vm_ngau_nhien_bao_mat_bytes ∷ op_vm_ngu_mili_giay
    ∷ op_vm_so_thuc_bits ∷ op_vm_so_thuc_dac_biet ∷ op_vm_socket_chap_nhan
    ∷ op_vm_socket_dat_timeout ∷ op_vm_socket_dong ∷ op_vm_socket_gui ∷ op_vm_socket_nhan
    ∷ op_vm_socket_phan_giai ∷ op_vm_socket_tcp_lang_nghe ∷ op_vm_socket_tcp_mo
    ∷ op_vm_socket_tls_nang_cap ∷ op_vm_socket_udp_mo ∷ op_vm_tao_thu_muc ∷ op_vm_task_cancel
    ∷ op_vm_task_schedule ∷ op_vm_task_status ∷ op_vm_task_wait ∷ op_vm_ten_nen_tang
    ∷ op_vm_thoi_gian_don_dieu_ms ∷ op_vm_tien_trinh_chay ∷ op_vm_xoa_duong_dan ∷ op_vm_thread_spawn
    ∷ op_vm_thread_wait ∷ op_vm_thread_cancel ∷ op_vm_thread_status ∷ op_vm_thread_park
    ∷ op_vm_tuple_from_list ∷ op_vm_type_of ∷ op_vm_identity_hash ∷ op_vm_length ∷ op_vm_list_append
    ∷ op_vm_list_remove ∷ op_vm_map_has ∷ op_vm_map_remove ∷ op_vm_map_keys ∷ op_vm_string_bytes
    ∷ op_vm_string_from_bytes ∷ op_vm_float_from_bits ∷ op_ffi_call ∷ op_vm_bytecode_chay
    ∷ op_native_artifact_chay ∷ op_vm_machine_file_open ∷ op_vm_machine_file_read
    ∷ op_vm_machine_file_write ∷ op_vm_machine_file_close ∷ op_vm_machine_file_seek
    ∷ op_vm_machine_file_tell ∷ op_vm_machine_file_error ∷ op_vm_machine_file_remove
    ∷ op_vm_machine_process_pid ∷ op_vm_machine_process_ppid ∷ op_vm_machine_process_uid
    ∷ op_vm_machine_process_euid ∷ op_vm_machine_process_gid ∷ op_vm_machine_process_egid
    ∷ op_vm_machine_time_sleep ∷ op_vm_machine_time_monotonic ∷ op_vm_machine_time_realtime
    ∷ op_vm_machine_entropy_read ∷ op_vm_machine_env_get ∷ op_vm_machine_time_local
    ∷ op_vm_machine_dir_mkdir ∷ op_vm_machine_dir_remove ∷ op_vm_machine_dir_open
    ∷ op_vm_machine_dir_next ∷ op_vm_machine_dir_close ∷ op_vm_machine_path_kind
    ∷ op_vm_machine_socket_kind ∷ op_vm_machine_socket_close ∷ op_vm_machine_socket_timeout
    ∷ op_vm_machine_socket_send ∷ op_vm_machine_socket_recv ∷ op_vm_machine_socket_accept
    ∷ op_vm_machine_socket_listen ∷ op_vm_machine_socket_connect ∷ op_vm_machine_process_new
    ∷ op_vm_machine_process_arg ∷ op_vm_machine_process_command_line ∷ op_vm_machine_process_env
    ∷ op_vm_machine_process_start ∷ op_vm_machine_process_poll ∷ op_vm_machine_process_read
    ∷ op_vm_machine_process_wait ∷ op_vm_machine_process_error ∷ op_vm_machine_process_close
    ∷ op_vm_machine_resolve_open ∷ op_vm_machine_resolve_next ∷ op_vm_machine_resolve_close
    ∷ op_vm_machine_tls_upgrade ∷ op_vm_machine_tls_send ∷ op_vm_machine_tls_recv ∷ []

find_code : ℕ → List Opcode → Option Opcode
find_code n [] = none
find_code n (o ∷ os) = let rest = find_code n os in if code_of o == n then some o else rest

-- `static_cast<Opcode>` of a raw number, where it names an enumerator.
unfoldable pub of_raw : ℤ → Option Opcode
unfolding find_code code_of all_opcodes
of_raw (pos n) = find_code n all_opcodes
of_raw (negsuc n) = none

find_code-eq_some :
    (n : ℕ) (os : List Opcode) (o : Opcode) → find_code n os ≡ some o → n ≡ code_of o
unfolding find_code
find_code-eq_some n [] o e = cc
find_code-eq_some n (x ∷ os) o e = elim (Bool-cases (code_of x == n)) [
  | inl hit ↦ ground arith
  | inr miss ↦ find_code-eq_some n os o (rw miss at e)
]

-- A raw number is read as the opcode that has this number, and as no other.
pub of_raw-eq_some : (raw : ℤ) (o : Opcode) → of_raw raw ≡ some o → raw ≡ pos (code_of o)
unfolding of_raw
of_raw-eq_some (pos n) o e = ap pos (find_code-eq_some n all_opcodes o e)
of_raw-eq_some (negsuc n) o e = cc

-- Every opcode is read back from its number: no two opcodes share one.
pub of_raw-code_of : (o : Opcode) → of_raw (pos (code_of o)) ≡ some o
unfolding of_raw
of_raw-code_of op_cong = refl
of_raw-code_of _ = refl
